-- ===== src/Coordinator/Health/Repairs.antt =====
-- The repair that src/custom_components/bluetooth_mesh/coordinator.py has on screen.
use ha_bluetooth_mesh.Prelude.{
  ◌+◌, ◌≡◌, refl, sym, ◌∙◌, ◌⊎◌, inl, inr, arith, Bool, true, false, Option, none, some, List, [],
  ◌∷◌, leb, if◌then◌else◌, Bool-cases,
}
use ha_bluetooth_mesh.Coordinator.Health.{
  Health, Issue, proxy_stuck, proxy_unreachable, proxy_is_stuck, clear_issue, issue_eq,
  raise_proxy_issue, notify_listeners, give_up, set_unavailable,
}

-- What is on screen: what an earlier run has left, or the one repair that is noted.
abbrev pub IsOnScreen : List Issue → Bool → Option Issue → List Issue → Type 0
IsOnScreen left many kind registry =
    ((many ≡ false) × (kind ≡ none) × (registry ≡ left))
    ⊎ ((k : Issue) × (many ≡ true) × (kind ≡ some k) × (registry ≡ k ∷ []))

pub same-IsOnScreen :
    (left : List Issue) (m n : Bool) (o p : Option Issue) (r s : List Issue)
    → m ≡ n
    → o ≡ p
    → r ≡ s
    → IsOnScreen left m o r
    → IsOnScreen left n p s
same-IsOnScreen left m n o p r s a b c (inl (x, y, z)) = inl (sym a ∙ x, sym b ∙ y, sym c ∙ z)
same-IsOnScreen left m n o p r s a b c (inr (k, x, y, z)) = inr (k, sym a ∙ x, sym b ∙ y, sym c ∙ z)

noted_on_screen :
    (left : List Issue) (m : Bool) (o : Option Issue) (r : List Issue) (k : Issue)
    → IsOnScreen left m o r
    → o ≡ some k
    → r ≡ k ∷ []
noted_on_screen left m o r k (inl (x, y, z)) e = absurd (cc (y, e))
noted_on_screen left m o r k (inr (k', x, y, z)) e = cc (y, z, e)

issue_eq-some : (k : Issue) (o : Option Issue) → issue_eq k o ≡ true → o ≡ some k
unfolding issue_eq
issue_eq-some proxy_stuck none h = cc
issue_eq-some proxy_stuck (some proxy_stuck) h = refl
issue_eq-some proxy_stuck (some proxy_unreachable) h = cc
issue_eq-some proxy_unreachable none h = cc
issue_eq-some proxy_unreachable (some proxy_stuck) h = cc
issue_eq-some proxy_unreachable (some proxy_unreachable) h = refl

raise_proxy_issue-IsOnScreen :
    (left : List Issue) (m : Bool) (h : Health)
    → IsOnScreen left m h.issue_kind h.registry
    → let r = raise_proxy_issue h in IsOnScreen left true r.issue_kind r.registry
unfolding raise_proxy_issue clear_issue
raise_proxy_issue-IsOnScreen left m h shown =
    let kind = if proxy_is_stuck h then proxy_stuck else proxy_unreachable in
    elim (Bool-cases (issue_eq kind h.issue_kind)) [
      | inl same ↦
          let noted = issue_eq-some kind h.issue_kind same in
          inr (
            kind,
            refl,
            rw (same, raise_proxy_issue) noted,
            rw (same, raise_proxy_issue)
                (noted_on_screen left m h.issue_kind h.registry kind shown noted),
          )
      | inr other ↦
          inr (kind, refl, rw (other, raise_proxy_issue) refl, rw (other, raise_proxy_issue) refl)
    ]

give_up-IsOnScreen :
    (left : List Issue) (m : Bool) (h : Health)
    → IsOnScreen left m h.issue_kind h.registry
    → let r = give_up h in IsOnScreen left true r.issue_kind r.registry
unfolding give_up notify_listeners
give_up-IsOnScreen left m h shown =
    let raised = raise_proxy_issue-IsOnScreen left m (record h { available = false }) shown in
    elim (Bool-cases h.available) [
      | inl up ↦ rw (up, give_up) raised
      | inr down ↦ rw (down, give_up) raised
    ]

pub set_unavailable-IsOnScreen :
    (left : List Issue) (h : Health)
    → IsOnScreen left (leb 3 h.fail_count) h.issue_kind h.registry
    → let r = set_unavailable h in
      IsOnScreen left (leb 3 (h.fail_count + 1)) r.issue_kind r.registry
unfolding set_unavailable
set_unavailable-IsOnScreen left h shown =
    let missed = record h { fail_count = h.fail_count + 1 } in
    elim (Bool-cases (leb 3 (h.fail_count + 1))) [
      | inl many ↦
          rw (many, set_unavailable) (give_up-IsOnScreen left (leb 3 h.fail_count) missed shown)
      | inr few ↦
          let few_before : leb 3 h.fail_count ≡ false = ground (arith, few) in
          rw (few, set_unavailable)
            (same-IsOnScreen left (leb 3 h.fail_count) false h.issue_kind h.issue_kind h.registry
              h.registry few_before refl refl shown)
    ]
