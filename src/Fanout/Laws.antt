-- ===== src/Fanout/Laws.antt =====
-- Which links a send keeps.
use ha_bluetooth_mesh.Prelude.{
  ℕ, ◌+◌, ◌≤◌, ◌≡◌, ◌≢◌, ◌∙◌, refl, sym, ap, arith, min, Bool, true, false, some, List, [], ◌∷◌,
  ◌&&◌, ◌||◌, not, ◌==◌, ==_refl, ==_iff, Bool-cases, inl, inr, if◌then◌else◌, length, map, All,
  subst,
}
use ha_bluetooth_mesh.Prelude.Outcome.{ok, err, bearer_error}
use ha_bluetooth_mesh.Fanout.{
  FanoutBearer, filter, mem, live, drop_links, after_writes, write_all, send, min_of, smallest,
  max_frame,
}

filter_agree :
    (p q : ℕ → Bool) (bs : List ℕ)
    → ((b : ℕ) → mem b bs ≡ true → p b ≡ q b)
    → filter p bs ≡ filter q bs
unfolding filter mem
filter_agree p q [] h = refl
filter_agree p q (b ∷ bs) h =
    let here : p b ≡ q b = h b (rw (==_refl b) refl) in
    let rest = filter_agree p q bs (λ c m. h c (ground (arith, m))) in rw (here, rest) refl

same_value : (p : ℕ → Bool) (b c : ℕ) → (b == c) ≡ true → p b ≡ p c
same_value p b c e = ap p ((==_iff b c).0 e)

mem-filter : (b : ℕ) (p : ℕ → Bool) (bs : List ℕ) → mem b (filter p bs) ≡ (mem b bs && p b)
unfolding filter mem
mem-filter b p [] = refl
mem-filter b p (c ∷ cs) =
    let ih = mem-filter b p cs in
    elim (Bool-cases (b == c)) [
      | inl e ↦ elim (Bool-cases (p c)) [
        | inl taken ↦ rw (e, same_value p b c e, taken, e) refl
        | inr left ↦ rw (e, same_value p b c e, left, ih, same_value p b c e, left) (ground arith)
      ]
      | inr e ↦ elim (Bool-cases (p c)) [
        | inl taken ↦ rw (e, taken, e) ih
        | inr left ↦ rw (e, left) ih
      ]
    ]

filter_all : (bs : List ℕ) → filter (λ b. true) bs ≡ bs
unfolding filter
filter_all [] = refl
filter_all (b ∷ bs) = rw (filter_all bs) refl

length-filter :
    (p : ℕ → Bool) (bs : List ℕ)
    → length (filter (λ b. not (p b)) bs) + length (filter p bs) ≡ length bs
unfolding filter
length-filter p [] = refl
length-filter p (b ∷ bs) = ground (arith, length-filter p bs)

drop_links-bearers :
    (ds : List ℕ) (f : FanoutBearer)
    → (drop_links ds f).bearers ≡ filter (λ b. not (mem b ds)) f.bearers
unfolding drop_links mem
drop_links-bearers [] f = sym (filter_all f.bearers)
drop_links-bearers (d ∷ ds) f = refl

drop_links-dead : (ds : List ℕ) (f : FanoutBearer) → (drop_links ds f).dead ≡ f.dead
unfolding drop_links
drop_links-dead [] f = refl
drop_links-dead (d ∷ ds) f = refl

-- What is dropped by a test leaves what fails it.
drop_links-filter :
    (p : ℕ → Bool) (f : FanoutBearer)
    → (drop_links (filter p f.bearers) f).bearers ≡ filter (λ b. not (p b)) f.bearers
drop_links-filter p f =
    drop_links-bearers (filter p f.bearers) f
    ∙ filter_agree _ (λ b. not (p b)) f.bearers
        (λ b m. ap not (mem-filter b p f.bearers ∙ rw m refl))

filter-filter :
    (p q : ℕ → Bool) (bs : List ℕ) → filter p (filter q bs) ≡ filter (λ b. q b && p b) bs
unfolding filter
filter-filter p q [] = refl
filter-filter p q (b ∷ bs) = elim (Bool-cases (q b)) [
  | inl taken ↦ rw (taken, filter-filter p q bs) refl
  | inr left ↦ rw (left, filter-filter p q bs) refl
]

and_self : (x : Bool) → (x && x) ≡ x
and_self true = refl
and_self false = refl

filter_live :
    (failing : ℕ → Bool) (bs : List ℕ)
    → filter (λ b. not (failing b)) (filter (λ b. not (failing b)) bs)
      ≡ filter (λ b. not (failing b)) bs
filter_live failing bs =
    filter-filter _ _ bs ∙ filter_agree _ _ bs (λ b m. and_self (not (failing b)))

not-not : (x : Bool) → not (not x) ≡ x
not-not true = refl
not-not false = refl

drop_writes :
    (sends : ℕ → Bool) (alive : List ℕ) (g : FanoutBearer)
    → g.bearers ≡ alive
    → (drop_links
        (filter (λ b. not (sends b)) alive)
        (after_writes (filter (λ b. not (sends b)) alive) false g)).bearers
      ≡ filter sends alive
unfolding after_writes
drop_writes sends alive g kept =
    let failed = filter (λ b. not (sends b)) alive in
    drop_links-bearers failed (after_writes failed false g)
    ∙ ap (filter (λ b. not (mem b failed))) kept
    ∙ filter_agree _ sends alive
        (λ b m. ap not (mem-filter b (λ b. not (sends b)) alive ∙ rw m refl) ∙ not-not (sends b))

or_false : (x : Bool) → (x || false) ≡ x
or_false true = refl
or_false false = refl

write_some :
    (sends : ℕ → Bool) (alive : List ℕ) (g : FanoutBearer)
    → g.bearers ≡ alive
    → length (filter sends alive) ≢ 0
    → ((write_all sends alive g).1 ≡ ok tt)
      × ((write_all sends alive g).0.bearers ≡ filter sends alive)
      × ((write_all sends alive g).0.dead ≡ g.dead)
unfolding write_all
write_some sends alive g kept reached =
    let failed = filter (λ b. not (sends b)) alive in
    let count = length-filter sends alive in
    let some_alive : (length alive == 0) ≡ false = ground (arith, count) in
    let not_all : (length failed == length alive) ≡ false = ground (arith, count) in
    rw (some_alive, not_all)
      (
        refl,
        drop_writes sends alive g kept,
        drop_links-dead failed (after_writes failed false g) ∙ or_false g.dead,
      )

write_none :
    (sends : ℕ → Bool) (alive : List ℕ) (g : FanoutBearer)
    → g.bearers ≡ alive
    → length (filter sends alive) ≡ 0
    → ((write_all sends alive g).1 ≡ err bearer_error)
      × ((write_all sends alive g).0.bearers ≡ alive)
      × ((write_all sends alive g).0.dead ≡ (g.dead || not (length alive == 0)))
unfolding write_all after_writes
write_none sends alive g kept reached =
    let failed = filter (λ b. not (sends b)) alive in
    let count = length-filter sends alive in
    let all : (length failed == length alive) ≡ true = ground (arith, count) in
    elim (Bool-cases (length alive == 0)) [
      | inl empty ↦ rw empty (refl, kept, sym (or_false g.dead))
      | inr some_alive ↦ rw (some_alive, all) (refl, kept, refl)
    ]

-- A send reaches the links that are not failing and take the write. If there is one, the send
-- succeeds, and those links, in their order, are the ones that it keeps; if there is none it raises
-- a BearerError, keeps the links that are not failing for their owner to free, and marks the
-- fan-out dead if there were any.
pub send_lem :
    (failing sends : ℕ → Bool) (f : FanoutBearer)
    → let alive = live failing f in
      let reached = filter sends alive in
      let none_reached = length reached == 0 in
      let after = send failing sends f in
      (after.1 ≡ (if none_reached then err bearer_error else ok tt))
      × (after.0.bearers ≡ (if none_reached then alive else reached))
      × (after.0.dead ≡ (f.dead || (none_reached && not (length alive == 0))))
unfolding send live
send_lem failing sends f =
    let alive = live failing f in
    let g = drop_links (filter failing f.bearers) f in
    let kept : g.bearers ≡ alive = drop_links-filter failing f in
    let same : live failing g ≡ alive =
      ap (filter (λ b. not (failing b))) kept ∙ filter_live failing f.bearers in
    let dead : g.dead ≡ f.dead = drop_links-dead (filter failing f.bearers) f in
    elim (Bool-cases (length (filter sends alive) == 0)) [
      | inl none_reached ↦
          let (raised, left, marked) = write_none sends alive g kept (ground arith) in
          rw (same, none_reached)
            (raised, left, marked ∙ ap (λ (d : Bool). d || not (length alive == 0)) dead)
      | inr some_reached ↦
          let (sent, left, marked) = write_some sends alive g kept (ground arith) in
          rw (same, some_reached) (sent, left, marked ∙ dead ∙ sym (or_false f.dead))
    ]

min_of-le : (m : ℕ) (ns : List ℕ) → (min_of m ns ≤ m) × All (λ n. min_of m ns ≤ n) ns
unfolding min_of
min_of-le m [] = (omega arith, tt)
min_of-le m (n ∷ ns) =
    let (low, others) = min_of-le (min m n) ns in (omega (arith, low), (omega (arith, low), others))

smallest-le : (ns : List ℕ) (n : ℕ) → smallest ns ≡ some n → All (λ m. n ≤ m) ns
unfolding smallest
smallest-le [] n h = cc
smallest-le (m ∷ ns) n h =
    let (low, others) = min_of-le m ns in
    let e : min_of m ns ≡ n = cc in subst (λ k. All (λ i. k ≤ i) (m ∷ ns)) e (low, others)

-- The frame size of the fan-out is at most that of each link that is not failing.
pub max_frame-fits :
    (failing : ℕ → Bool) (frame_of : ℕ → ℕ) (f : FanoutBearer) (n : ℕ)
    → max_frame failing frame_of f ≡ some n
    → All (λ m. n ≤ m) (map frame_of (live failing f))
unfolding max_frame
max_frame-fits failing frame_of f n h = smallest-le (map frame_of (live failing f)) n h
