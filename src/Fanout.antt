-- ===== src/Fanout.antt =====
-- src/btmesh/fanout.py: one bearer over several proxy links. A link is a number, its identity. What
-- a link does is a parameter: `failing` has those whose `failure` is set at the time of the call,
-- `starts` and `sends` those whose `start` and `send` do not raise. An operation that raises leaves
-- a changed state too, so that it returns the state beside its result; `told` is the calls of
-- `on_drop`, whose own exceptions the code swallows. `stop` only passes on to the links.
pub mod Laws
mod Tests
use ha_bluetooth_mesh.Prelude.{
  ℕ, zero, suc, min, Bool, true, false, Option, none, some, List, [], ◌∷◌, ◌++◌, ◌&&◌, ◌||◌, not,
  ◌==◌, if◌then◌else◌, length, map,
}
use ha_bluetooth_mesh.Prelude.Outcome.{Result, ok, err, bearer_error}

pub record FanoutBearer : Type 0 where
  pub bearers : List ℕ
  -- `_on_message` is set
  pub started : Bool
  -- the link whose exception `_last_error` is
  pub last_error : Option ℕ
  pub dead : Bool
  pub has_on_drop : Bool
  pub told : List ℕ

unfoldable pub filter : (ℕ → Bool) → List ℕ → List ℕ
filter p [] = []
filter p (b ∷ bs) = let rest = filter p bs in if p b then b ∷ rest else rest

unfoldable pub mem : ℕ → List ℕ → Bool
mem b [] = false
mem b (c ∷ cs) = b == c || mem b cs

-- The last link of a list of failed ones, where there is one: its exception is kept.
unfoldable pub last_of : Option ℕ → List ℕ → Option ℕ
last_of kept [] = kept
last_of kept (b ∷ bs) = last_of (some b) bs

-- `_live`
unfoldable pub live : (ℕ → Bool) → FanoutBearer → List ℕ
unfolding filter
live failing f = filter (λ b. not (failing b)) f.bearers

-- `max_frame`: Python's `min` raises a ValueError of no links.
unfoldable pub min_of : ℕ → List ℕ → ℕ
min_of m [] = m
min_of m (n ∷ ns) = min_of (min m n) ns

unfoldable pub smallest : List ℕ → Option ℕ
unfolding min_of
smallest [] = none
smallest (n ∷ ns) = some (min_of n ns)

unfoldable pub max_frame : (ℕ → Bool) → (ℕ → ℕ) → FanoutBearer → Option ℕ
unfolding live smallest
max_frame failing frame_of f = smallest (map frame_of (live failing f))

-- `failure` is None.
unfoldable pub is_usable : (ℕ → Bool) → FanoutBearer → Bool
unfolding live
is_usable failing f = not (length (live failing f) == 0) && not f.dead

-- `_drop`
unfoldable pub drop_links : List ℕ → FanoutBearer → FanoutBearer
unfolding filter mem
drop_links [] f = f
drop_links (d ∷ ds) f = record {
  bearers = filter (λ b. not (mem b (d ∷ ds))) f.bearers;
  started = f.started;
  last_error = f.last_error;
  dead = f.dead;
  has_on_drop = f.has_on_drop;
  told = f.told ++ (if f.has_on_drop then d ∷ ds else []);
}

unfoldable pub start : (ℕ → Bool) → FanoutBearer → FanoutBearer × Result (Unit {0})
unfolding filter last_of drop_links
start starts f =
    let failed = filter (λ b. not (starts b)) f.bearers in
    let begun : FanoutBearer = record {
      bearers = f.bearers;
      started = true;
      last_error = last_of f.last_error failed;
      dead = f.dead;
      has_on_drop = f.has_on_drop;
      told = f.told;
    } in
    if length failed == length f.bearers
    then (begun, err bearer_error)
    else (drop_links failed begun, ok tt)

-- `bearer.start` raises its own exception, of class `e`.
unfoldable pub add : Result (Unit {0}) → ℕ → FanoutBearer → FanoutBearer × Result (Unit {0})
add (ok u) b f =
    if f.started
    then (
      record {
        bearers = f.bearers ++ (b ∷ []);
        started = f.started;
        last_error = f.last_error;
        dead = f.dead;
        has_on_drop = f.has_on_drop;
        told = f.told;
      },
      ok tt,
    )
    else (f, err bearer_error)
add (err e) b f = (f, if f.started then err e else err bearer_error)

-- What the failed writes change, before any link is dropped.
unfoldable pub after_writes : List ℕ → Bool → FanoutBearer → FanoutBearer
unfolding last_of
after_writes failed all_failed f = record {
  bearers = f.bearers;
  started = f.started;
  last_error = last_of f.last_error failed;
  dead = f.dead || all_failed;
  has_on_drop = f.has_on_drop;
  told = f.told;
}

-- `send`, from the writes to the live links on.
unfoldable pub write_all : (ℕ → Bool) → List ℕ → FanoutBearer → FanoutBearer × Result (Unit {0})
unfolding filter after_writes drop_links
write_all sends alive f =
    let failed = filter (λ b. not (sends b)) alive in
    if length alive == 0
    then (f, err bearer_error)
    else if length failed == length alive
    then (after_writes failed true f, err bearer_error)
    else (drop_links failed (after_writes failed false f), ok tt)

unfoldable pub send : (ℕ → Bool) → (ℕ → Bool) → FanoutBearer → FanoutBearer × Result (Unit {0})
unfolding filter live drop_links write_all
send failing sends f =
    let g = drop_links (filter failing f.bearers) f in write_all sends (live failing g) g
