-- ===== src/Bearer/Scan/First.antt =====
-- The search for a proxy of src/btmesh/bearer.py finds the first advert that matches.
use ha_bluetooth_mesh.Prelude.{
  ℕ, ◌≡◌, refl, sym, ap, ◌∙◌, arith, Bool, true, false, Option, none, some, List, [], ◌∷◌, ◌++◌,
  ◌||◌, leb, if◌then◌else◌, Bool-cases, Option-cases, inl, inr,
}
use ha_bluetooth_mesh.Prelude.Bytes.{Bytes}
use ha_bluetooth_mesh.Bearer.Scan.{
  ProxyCandidate, Poll, proxy_candidates_from_discoveries, set_candidate, is_match, look,
  after_look, find_from, find_proxy_node,
}

-- What the scan could see: the candidates of every poll, up to the first past the deadline.
unfoldable pub seen_until : ℕ → List Poll → List ProxyCandidate
seen_until deadline [] = []
seen_until deadline (poll ∷ polls) =
    let later = seen_until deadline polls in
    proxy_candidates_from_discoveries poll.discoveries
    ++ (if leb deadline poll.time then [] else later)

-- The first candidate that advertises the Network ID.
unfoldable pub first_match : Bytes → List ProxyCandidate → Option ProxyCandidate
unfolding is_match
first_match network_id [] = none
first_match network_id (c ∷ cs) =
    let later = first_match network_id cs in if is_match network_id c then some c else later

unfoldable pub is_over : ℕ → List Poll → Bool
is_over deadline [] = false
is_over deadline (poll ∷ polls) = leb deadline poll.time || is_over deadline polls

look-first_match :
    (network_id : Bytes) (cs candidates : List ProxyCandidate)
    → (look network_id cs candidates).0 ≡ first_match network_id cs
unfolding look first_match
look-first_match network_id [] candidates = refl
look-first_match network_id (c ∷ cs) candidates = elim (Bool-cases (is_match network_id c)) [
  | inl yes' ↦ rw yes' refl
  | inr no' ↦ rw no' (look-first_match network_id cs (set_candidate c candidates))
]

first_match-append :
    (network_id : Bytes) (cs ds : List ProxyCandidate)
    → first_match network_id (cs ++ ds)
      ≡ elim (first_match network_id cs) [ some c ↦ some c | none ↦ first_match network_id ds ]
unfolding first_match
first_match-append network_id [] ds = refl
first_match-append network_id (c ∷ cs) ds = elim (Bool-cases (is_match network_id c)) [
  | inl yes' ↦ rw yes' refl
  | inr no' ↦ rw no' (first_match-append network_id cs ds)
]

abbrev give :
    List ProxyCandidate
    → Option ProxyCandidate
    → Option (Option ProxyCandidate × List ProxyCandidate)
give cs o = some (o, cs)

over_later : (a b : Bool) → a ≡ false → (a || b) ≡ true → b ≡ true
over_later a b early over = ground arith

after_look-some :
    (over : Bool) (l : Option ProxyCandidate × List ProxyCandidate) (c : ProxyCandidate)
    (later : Option (Option ProxyCandidate × List ProxyCandidate))
    → l.0 ≡ some c
    → after_look over l later ≡ some (some c, l.1)
unfolding after_look
after_look-some over (none, cs) c later found = cc
after_look-some over (some d, cs) c later found =
    ap (λ (o : Option ProxyCandidate). some (o, cs)) found

after_look-none :
    (over : Bool) (l : Option ProxyCandidate × List ProxyCandidate)
    (later : Option (Option ProxyCandidate × List ProxyCandidate))
    → l.0 ≡ none
    → after_look over l later ≡ (if over then some (none, l.1) else later)
unfolding after_look
after_look-none over (none, cs) later found = refl
after_look-none over (some d, cs) later found = cc

module _ (network_id : Bytes) (deadline : ℕ) where
  -- What the first match is, where the candidates of a poll stand first.
  seen_until-first_match :
      (poll : Poll) (polls : List Poll)
      → let cs = proxy_candidates_from_discoveries poll.discoveries in
        first_match network_id (seen_until deadline (poll ∷ polls))
        ≡ elim (first_match network_id cs) [
          | some c ↦ some c
          | none ↦
              first_match network_id
                (if leb deadline poll.time then [] else seen_until deadline polls)
        ]
  unfolding seen_until
  seen_until-first_match poll polls =
      first_match-append network_id (proxy_candidates_from_discoveries poll.discoveries)
        (if leb deadline poll.time then [] else seen_until deadline polls)

  seen_until-hit :
      (poll : Poll) (polls : List Poll) (c : ProxyCandidate)
      → first_match network_id (proxy_candidates_from_discoveries poll.discoveries) ≡ some c
      → first_match network_id (seen_until deadline (poll ∷ polls)) ≡ some c
  seen_until-hit poll polls c hit = rw (seen_until-first_match poll polls, hit) refl

  seen_until-miss :
      (poll : Poll) (polls : List Poll) (over : Bool)
      → first_match network_id (proxy_candidates_from_discoveries poll.discoveries) ≡ none
      → leb deadline poll.time ≡ over
      → first_match network_id (seen_until deadline (poll ∷ polls))
        ≡ first_match network_id (if over then [] else seen_until deadline polls)
  seen_until-miss poll polls over miss time =
      rw (seen_until-first_match poll polls, miss, time) refl

  find_from-first_match :
      (polls : List Poll) (candidates : List ProxyCandidate)
      → is_over deadline polls ≡ true
      → (cs : List ProxyCandidate) × (find_from network_id deadline polls candidates
          ≡ some (first_match network_id (seen_until deadline polls), cs))
  unfolding find_from is_over first_match
  find_from-first_match [] candidates over = cc
  find_from-first_match (poll ∷ polls) candidates over =
      let found = proxy_candidates_from_discoveries poll.discoveries in
      let looked = look network_id found candidates in
      let later = find_from network_id deadline polls looked.1 in
      let same = look-first_match network_id found candidates in
      elim (Option-cases (first_match network_id found)) [
        | inr (c, hit) ↦ (
          looked.1,
          after_look-some (leb deadline poll.time) looked c later (same ∙ hit)
              ∙ ap (give looked.1) (sym (seen_until-hit poll polls c hit)),
        )
        | inl miss ↦ elim (Bool-cases (leb deadline poll.time)) [
          | inl past ↦ (
            looked.1,
            after_look-none (leb deadline poll.time) looked later (same ∙ miss)
                ∙ ap (λ (b : Bool). if b then give looked.1 none else later) past
                ∙ ap (give looked.1) (sym (seen_until-miss poll polls true miss past)),
          )
          | inr early ↦
              let (cs, rest) =
                find_from-first_match polls looked.1
                  (over_later (leb deadline poll.time) (is_over deadline polls) early over) in
              (
                cs,
                after_look-none (leb deadline poll.time) looked later (same ∙ miss)
                    ∙ ap (λ (b : Bool). if b then give looked.1 none else later) early
                    ∙ rest
                    ∙ ap (give cs) (sym (seen_until-miss poll polls false miss early)),
              )
        ]
      ]

  -- Where some poll is at or past the deadline, the search ends, and what it returns as the match is
  -- the first advert, in the order of the polls and of the scanner, whose type is Network ID and
  -- whose parameter is the network's, among all up to the first poll past the deadline; and None if
  -- there is none.
  pub find_proxy_node-first_match :
      (polls : List Poll)
      → is_over deadline polls ≡ true
      → (candidates : List ProxyCandidate) × (find_proxy_node network_id deadline polls
          ≡ some (first_match network_id (seen_until deadline polls), candidates))
  unfolding find_proxy_node
  find_proxy_node-first_match polls over = find_from-first_match polls [] over
