-- ===== src/Crypto/Toy.antt =====
-- Primitives that meet `IsSound`, for running the model: a constant keystream, and a sealed text
-- that is the text with a constant tag.
use ha_bluetooth_mesh.Prelude.{
  ℕ, zero, suc, ◌+◌, ◌-◌, ◌≡◌, refl, sym, ap, ◌∙◌, subst, arith, some, none, ◌++◌, length, take,
  drop, replicate, length-append, length-replicate, take-append, drop-append, All-append, All-take,
  Bool-cases, inl, inr, bytes_eq, bytes_eq_refl, if◌then◌else◌, Option,
}
use ha_bluetooth_mesh.Prelude.Bytes.{Bytes, IsByte, AllBytes}
use ha_bluetooth_mesh.Crypto.{Primitives, IsSound}

toy_tag : ℕ → Bytes
toy_tag tag = replicate tag 0xAA

toy_open : ℕ → Bytes → Option Bytes
unfolding toy_tag bytes_eq
toy_open tag sealed =
    let size = length sealed - tag in
    if bytes_eq (drop size sealed) (toy_tag tag) then some (take size sealed) else none

unfoldable pub toy : Primitives
unfolding toy_open toy_tag
toy = record {
  cmac = λ key text. replicate 16 0x11;
  ecb = λ key block. replicate 16 0x5A;
  ccm_seal = λ key tag nonce text extra. some (text ++ toy_tag tag);
  ccm_open = λ key tag nonce sealed extra. toy_open tag sealed;
}

replicate-AllBytes : (n b : ℕ) → IsByte b → AllBytes (replicate n b)
replicate-AllBytes zero b h = tt
replicate-AllBytes (suc n) b h = (h, replicate-AllBytes n b h)

toy_open-seal : (tag : ℕ) (text : Bytes) → toy_open tag (text ++ toy_tag tag) ≡ some text
unfolding toy_open
toy_open-seal tag text =
    let size : length (text ++ toy_tag tag) - tag ≡ length text =
      omega (arith, length-append text (toy_tag tag), length-replicate {A = ℕ} tag 0xAA) in
    rw (size, drop-append (length text) text (toy_tag tag) refl, bytes_eq_refl (toy_tag tag))
      (rw (take-append (length text) text (toy_tag tag) refl))

-- What sealing gives, in the form in which the laws speak of it.
module _ (tag : ℕ) (text : Bytes) {sealed : Bytes}
    (e : some (text ++ toy_tag tag) ≡ some sealed) where
  inner : text ++ toy_tag tag ≡ sealed
  inner = cc

  toy_size : length sealed ≡ length text + tag
  unfolding toy_tag
  toy_size =
      ap length (sym inner)
      ∙ omega (arith, length-append text (toy_tag tag), length-replicate {A = ℕ} tag 0xAA)

  toy_bytes : AllBytes text → AllBytes sealed
  unfolding toy_tag
  toy_bytes b =
      subst AllBytes inner
        (All-append IsByte text (toy_tag tag) b (replicate-AllBytes tag 0xAA (omega arith)))

  toy_opens : toy_open tag sealed ≡ some text
  toy_opens = ap (toy_open tag) (sym inner) ∙ toy_open-seal tag text

toy_open_bytes :
    (tag : ℕ) (sealed text : Bytes)
    → AllBytes sealed
    → toy_open tag sealed ≡ some text
    → AllBytes text
unfolding toy_open
toy_open_bytes tag sealed text b e =
    let size = length sealed - tag in
    elim (Bool-cases (bytes_eq (drop size sealed) (toy_tag tag))) [
      | inl same ↦
          let front : take size sealed ≡ text = cc (same, e) in
          subst AllBytes front (All-take IsByte size sealed b)
      | inr other ↦ absurd (cc (other, e))
    ]

pub toy-IsSound : IsSound toy
unfolding toy
toy-IsSound = record {
  cmac_size = λ key text. refl;
  cmac_bytes = λ key text. replicate-AllBytes 16 0x11 (omega arith);
  ecb_size = λ key block k b. refl;
  ecb_bytes = λ key block. replicate-AllBytes 16 0x5A (omega arith);
  seal_works = λ key tag nonce text extra k t n s. (text ++ toy_tag tag, refl);
  seal_size = λ key tag nonce text extra sealed e. toy_size tag text e;
  seal_bytes = λ key tag nonce text extra sealed b e. toy_bytes tag text e b;
  open_bytes = λ key tag nonce sealed extra text b e. toy_open_bytes tag sealed text b e;
  open-seal = λ key tag nonce text extra sealed e. toy_opens tag text e;
}
