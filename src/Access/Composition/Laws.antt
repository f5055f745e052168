-- ===== src/Access/Composition/Laws.antt =====
-- A Composition Data Status, laid out element by element, is read back whole.
use ha_bluetooth_mesh.Prelude.{
  ℕ, zero, suc, ◌+◌, ◌-◌, ◌*◌, ◌/◌, ◌%◌, ◌^◌, ◌≤◌, ◌<◌, ◌≡◌, ◌∙◌, refl, sym, ap, arith, true, false,
  List, [], ◌∷◌, ◌++◌, append_assoc, ltb, length, drop, get_or, length-append, drop-drop,
  length-drop, subst, All,
}
use native.Mathlib.Nat.{add-zero, zero-add}
use ha_bluetooth_mesh.Prelude.Bytes.{Bytes, le, from_big, from_little}
use ha_bluetooth_mesh.Prelude.Outcome.{ok}
use ha_bluetooth_mesh.Access.{parse_access, opcode_size}
use ha_bluetooth_mesh.Access.Decoders.{word_at}
use ha_bluetooth_mesh.Access.Composition.{
  CompositionElement, CompositionData, sig_at, vendor_at, elements_from,
  parse_composition_data_status, op_config_composition_data_status,
}

words : List ℕ → Bytes
words [] = []
words (w ∷ ws) = le 2 w ++ words ws

pairs : List (ℕ × ℕ) → Bytes
pairs [] = []
pairs ((company, model) ∷ vs) = le 2 company ++ (le 2 model ++ pairs vs)

abbrev IsWord : ℕ → Type 0
IsWord w = w < 2 ^ 16

-- The octets of an element, as the layout of Page 0 has them.
element_octets : CompositionElement → Bytes
element_octets e =
    le 2 e.loc
    ++ (length e.sig_models ∷ length e.vendor_models ∷ words e.sig_models)
    ++ pairs e.vendor_models

elements_octets : List CompositionElement → Bytes
elements_octets [] = []
elements_octets (e ∷ es) = element_octets e ++ elements_octets es

get_or-drop : (k i d : ℕ) (xs : Bytes) → get_or (drop k xs) i d ≡ get_or xs (k + i) d
get_or-drop zero i d xs = rw zero-add
get_or-drop (suc k) i d [] = refl
get_or-drop (suc k) i d (x ∷ xs) =
    let e : suc (k + i) ≡ suc k + i = omega arith in
    subst (λ (n : ℕ). get_or (drop k xs) i d ≡ get_or (x ∷ xs) n d) e (get_or-drop k i d xs)

word_at-le :
    (params post : Bytes) (off w : ℕ)
    → IsWord w
    → drop off params ≡ le 2 w ++ post
    → (word_at off params ≡ w) × (drop (off + 2) params ≡ post)
unfolding le from_little
word_at-le params post off w h e =
    let two : off + 2 - off ≡ 2 = omega arith in
    let back : w % 256 + 256 * (w / 256 % 256 + 256 * 0) ≡ w = omega arith in
    (rw (two, e, back) refl, sym (drop-drop 2 off params) ∙ ap (drop 2) e)

sig_at-words :
    (params post : Bytes) (off : ℕ) (ws : List ℕ)
    → All IsWord ws
    → drop off params ≡ words ws ++ post
    → (sig_at (length ws) params off ≡ ws) × (drop (off + 2 * length ws) params ≡ post)
unfolding sig_at words
sig_at-words params post off [] h e = (refl, rw (add-zero off) e)
sig_at-words params post off (w ∷ ws) (p, q) e =
    let (first, after) =
      word_at-le params (words ws ++ post) off w p (e ∙ append_assoc (le 2 w) (words ws) post) in
    let (others, last) = sig_at-words params post (off + 2) ws q after in
    let m : off + 2 * suc (length ws) ≡ off + 2 + 2 * length ws = omega arith in
    (rw (first, others) refl, rw m last)

abbrev IsVendorModel : ℕ × ℕ → Type 0
IsVendorModel (company, model) = IsWord company × IsWord model

vendor_at-pairs :
    (params post : Bytes) (off : ℕ) (vs : List (ℕ × ℕ))
    → All IsVendorModel vs
    → drop off params ≡ pairs vs ++ post
    → (vendor_at (length vs) params off ≡ vs) × (drop (off + 4 * length vs) params ≡ post)
unfolding vendor_at pairs
vendor_at-pairs params post off [] h e = (refl, rw (add-zero off) e)
vendor_at-pairs params post off ((c, m) ∷ vs) ((p, p'), q) e =
    let split : (le 2 c ++ (le 2 m ++ pairs vs)) ++ post
        ≡ le 2 c ++ (le 2 m ++ (pairs vs ++ post)) =
      append_assoc (le 2 c) (le 2 m ++ pairs vs) post
      ∙ ap (λ (t : Bytes). le 2 c ++ t) (append_assoc (le 2 m) (pairs vs) post) in
    let (company, after) = word_at-le params (le 2 m ++ (pairs vs ++ post)) off c p (e ∙ split) in
    let (model, after') = word_at-le params (pairs vs ++ post) (off + 2) m p' after in
    let four : off + 2 + 2 ≡ off + 4 = omega arith in
    let (others, last) = vendor_at-pairs params post (off + 4) vs q (rw (sym four) after') in
    let n : off + 4 * suc (length vs) ≡ off + 4 + 4 * length vs = omega arith in
    (rw (company, model, others) refl, rw n last)

unfoldable pub IsElement : CompositionElement → Type 0
IsElement e =
    IsWord e.loc
    × (length e.sig_models < 256)
    × (length e.vendor_models < 256)
    × All IsWord e.sig_models
    × All IsVendorModel e.vendor_models

length-words : (ws : List ℕ) → length (words ws) ≡ 2 * length ws
unfolding words le
length-words [] = refl
length-words (w ∷ ws) = omega (arith, length-words ws)

length-pairs : (vs : List (ℕ × ℕ)) → length (pairs vs) ≡ 4 * length vs
unfolding pairs le
length-pairs [] = refl
length-pairs ((c, m) ∷ vs) = omega (arith, length-pairs vs)

length-element_octets :
    (e : CompositionElement)
    → length (element_octets e) ≡ 4 + 2 * length e.sig_models + 4 * length e.vendor_models
unfolding element_octets le
length-element_octets e = omega (
  arith,
  length-append (words e.sig_models) (pairs e.vendor_models),
  length-words e.sig_models,
  length-pairs e.vendor_models,
)

elements_from-octets :
    (fuel : ℕ) (params : Bytes) (off : ℕ) (es : List CompositionElement)
    → All IsElement es
    → length (elements_octets es) ≤ fuel
    → off ≤ length params
    → drop off params ≡ elements_octets es
    → elements_from fuel params off ≡ ok es
unfolding elements_from elements_octets element_octets IsElement le
elements_from-octets zero params off [] v f o e =
    let at_end : ltb off (length params) ≡ false =
      ground (arith, length-drop off params, ap length e) in
    rw at_end refl
elements_from-octets (suc fuel) params off [] v f o e =
    let at_end : ltb off (length params) ≡ false =
      ground (arith, length-drop off params, ap length e) in
    rw at_end refl
elements_from-octets zero params off (x ∷ es) v f o e =
    absurd (
      omega (arith, length-append (element_octets x) (elements_octets es), length-element_octets x))
elements_from-octets (suc fuel) params off (x ∷ es) ((l, s, n, ws, vs), v) f o e =
    let num_s = length x.sig_models in
    let num_v = length x.vendor_models in
    let end = off + 4 + 2 * num_s + 4 * num_v in
    let others = elements_octets es in
    let size : length (element_octets x ++ others) ≡ 4 + 2 * num_s + 4 * num_v + length others =
      length-append (element_octets x) others ∙ omega (arith, length-element_octets x) in
    let whole : length params ≡ end + length others =
      omega (arith, length-drop off params, ap length e, size) in
    let got_s : get_or params (off + 2) 0 ≡ num_s =
      sym (get_or-drop off 2 0 params) ∙ ap (λ (t : Bytes). get_or t 2 0) e in
    let got_v : get_or params (off + 3) 0 ≡ num_v =
      sym (get_or-drop off 3 0 params) ∙ ap (λ (t : Bytes). get_or t 3 0) e in
    let (got_loc, _) = word_at-le params _ off x.loc l e in
    let models : drop (off + 4) params ≡ words x.sig_models ++ (pairs x.vendor_models ++ others) =
      sym (drop-drop 4 off params)
      ∙ ap (drop 4) e
      ∙ append_assoc (words x.sig_models) (pairs x.vendor_models) others in
    let (got_sig, after_sig) = sig_at-words params _ (off + 4) x.sig_models ws models in
    let (got_vendor, after) =
      vendor_at-pairs params others (off + 4 + 2 * num_s) x.vendor_models vs after_sig in
    let rest =
      elements_from-octets fuel params end es v (omega (arith, size)) (omega (arith, whole))
        after in
    let more : ltb off (length params) ≡ true = ground (arith, whole) in
    let header : ltb (length params) (off + 4) ≡ false = ground (arith, whole) in
    let body : ltb (length params) end ≡ false = ground (arith, whole) in
    let at_s : ltb (off + 2) (length params) ≡ true = ground (arith, whole) in
    let at_v : ltb (off + 3) (length params) ≡ true = ground (arith, whole) in
    rw (more, header, at_s, at_v, got_s, got_v, body, got_loc, got_sig, got_vendor, rest) refl

unfoldable pub IsComposition : CompositionData → Type 0
IsComposition c =
    IsWord c.cid
    × IsWord c.pid
    × IsWord c.vid
    × IsWord c.crpl
    × IsWord c.features
    × All IsElement c.elements

-- The layout of Page 0: the page, five words, then the elements.
pub composition_octets : CompositionData → Bytes
composition_octets c =
    c.page ∷ le 2 c.cid
    ++ (le 2 c.pid
        ++ (le 2 c.vid ++ (le 2 c.crpl ++ (le 2 c.features ++ elements_octets c.elements))))

word_back : (w : ℕ) → IsWord w → w % 256 + 256 * (w / 256 % 256 + 256 * 0) ≡ w
word_back w h = omega arith

parse_access-status :
    (params : Bytes)
    → parse_access (op_config_composition_data_status ∷ params)
      ≡ ok (op_config_composition_data_status, params)
unfolding parse_access opcode_size from_big
parse_access-status params = ground arith

parse_params :
    (params : Bytes) (es : List CompositionElement)
    → 11 ≤ length params
    → elements_from (length params) params 11 ≡ ok es
    → parse_composition_data_status (op_config_composition_data_status ∷ params)
      ≡ ok (record {
        page = get_or params 0 0;
        cid = word_at 1 params;
        pid = word_at 3 params;
        vid = word_at 5 params;
        crpl = word_at 7 params;
        features = word_at 9 params;
        elements = es;
      })
unfolding parse_composition_data_status
parse_params params es h e =
    let enough : ltb (length params) 11 ≡ false = ground arith in
    let some_octet : ltb 0 (length params) ≡ true = ground arith in
    rw (parse_access-status params, enough, some_octet, e) refl

-- The status message that lays out a composition (any page, words of 16 bits, at most 255 models of
-- a kind in an element) parses to that composition, with its elements and models in order.
pub parse_composition_data_status-octets :
    (c : CompositionData)
    → IsComposition c
    → parse_composition_data_status (op_config_composition_data_status ∷ composition_octets c)
      ≡ ok c
unfolding composition_octets IsComposition le from_little
parse_composition_data_status-octets c (p1, p2, p3, p4, p5, es) =
    let params = composition_octets c in
    parse_params params c.elements (omega arith) (
      elements_from-octets (length params) params 11 c.elements es (omega arith) (omega arith) refl)
    ∙ rw
        (
          word_back c.cid p1,
          word_back c.pid p2,
          word_back c.vid p3,
          word_back c.crpl p4,
          word_back c.features p5,
        )
        refl
