-- ===== src/Coordinator/Links/Slots.antt =====
-- Lists of clients: what is left open of them when some are closed.
use ha_bluetooth_mesh.Prelude.{
  ℕ, ◌≡◌, refl, arith, Bool, true, false, List, [], ◌∷◌, ◌++◌, ◌||◌, ◌==◌, if◌then◌else◌, All,
  Bool-cases, inl, inr,
}
use ha_bluetooth_mesh.Coordinator.Links.{close, close_all}

-- `c in cs`
abbrev pub among : ℕ → List ℕ → Bool
among c [] = false
among c (d ∷ cs) = c == d || among c cs

abbrev pub AllAmong : List ℕ → List ℕ → Type 0
AllAmong cs ds = All (λ (c : ℕ). among c ds ≡ true) cs

pub among-append : (c : ℕ) (cs ds : List ℕ) → among c (cs ++ ds) ≡ (among c cs || among c ds)
among-append c [] ds = refl
among-append c (d ∷ cs) ds = ground (arith, among-append c cs ds)

pub among-close :
    (c d : ℕ) (cs : List ℕ) → among c (close d cs) ≡ (if d == c then false else among c cs)
unfolding close
among-close c d [] = ground arith
among-close c d (x ∷ cs) = ground (arith, among-close c d cs)

-- A client that is closed need not be among the rest.
pub AllAmong-close :
    (d : ℕ) (cs ds es : List ℕ)
    → ((c : ℕ) → (d == c) ≡ false → among c ds ≡ true → among c es ≡ true)
    → AllAmong cs ds
    → AllAmong (close d cs) es
unfolding close
AllAmong-close d [] ds es keep h = tt
AllAmong-close d (c ∷ cs) ds es keep h = elim (Bool-cases (d == c)) [
  | inl same ↦ rw same (AllAmong-close d cs ds es keep h.1)
  | inr other ↦ rw other (keep c other h.0, AllAmong-close d cs ds es keep h.1)
]

pub AllAmong-mono :
    (cs ds es : List ℕ)
    → ((c : ℕ) → among c ds ≡ true → among c es ≡ true)
    → AllAmong cs ds
    → AllAmong cs es
AllAmong-mono [] ds es keep h = tt
AllAmong-mono (c ∷ cs) ds es keep h = (keep c h.0, AllAmong-mono cs ds es keep h.1)

pub AllAmong-self : (cs : List ℕ) → AllAmong cs cs
AllAmong-self [] = tt
AllAmong-self (c ∷ cs) =
    (ground arith, AllAmong-mono cs cs (c ∷ cs) (λ d h. ground (arith, h)) (AllAmong-self cs))

pub AllAmong-nil : (cs : List ℕ) → AllAmong cs [] → cs ≡ []
AllAmong-nil [] h = refl
AllAmong-nil (c ∷ cs) h = absurd (ground (arith, h.0))

-- Closing all of them leaves none.
pub close_all-nil : (ds cs : List ℕ) → AllAmong cs ds → close_all ds cs ≡ []
unfolding close_all
close_all-nil [] cs h = AllAmong-nil cs h
close_all-nil (d ∷ ds) cs h =
    close_all-nil ds (close d cs)
      (AllAmong-close d cs (d ∷ ds) ds (λ c other among'. ground (arith, other, among')) h)
