-- ===== src/Coordinator/Links/Late.antt =====
-- src/custom_components/bluetooth_mesh/coordinator.py: links to further proxy nodes, which join the
-- fan-out after it is up, and links that the fan-out stops using.
use ha_bluetooth_mesh.Prelude.{
  ℕ, ◌-◌, Bool, false, Option, none, some, List, [], ◌∷◌, ◌++◌, ◌&&◌, ◌||◌, not, ltb, ◌==◌,
  if◌then◌else◌, bytes_eq, length,
}
use ha_bluetooth_mesh.Prelude.Dict.{get, delete}
use ha_bluetooth_mesh.NetworkModel.{Text, any}
use ha_bluetooth_mesh.Coordinator.Cursor.{after_start}
use ha_bluetooth_mesh.Coordinator.Health.{notify_listeners}
use ha_bluetooth_mesh.Coordinator.Links.{Links, Controller, max_extra_links, close, is_none}

-- `LATE_LINK_RETRY`, 60 s
abbrev pub late_link_retry : ℕ
late_link_retry = 60000

-- `address in addresses`
unfoldable pub is_in : Text → List Text → Bool
unfolding any
is_in address addresses = any (bytes_eq address) addresses

-- The test of `_maybe_join_late` that the advert is its own to handle
unfoldable pub joins : Links → Bool
unfolding is_none
joins l = not l.stopped && l.all_proxies && l.has_fanout && not (is_none l.controller)

-- An attempt to join the node was made less than LATE_LINK_RETRY ago.
unfoldable pub tried_lately : ℕ → Option ℕ → Bool
tried_lately now none = false
tried_lately now (some last) = ltb (now - last) late_link_retry

-- What `_maybe_join_late` does of an advert: nothing, leaving it to the recovery; nothing; or a join
pub data Late : Type 0 where
  not_ours ignored joined : Late

-- `_maybe_join_late`, with the addresses that are being joined and the last attempt at this one
unfoldable pub maybe_join_late : Text → ℕ → List Text → Option ℕ → Links → Late
unfolding joins is_in tried_lately
maybe_join_late address now joining last l =
    if not (joins l)
    then not_ours
    else if is_in address l.proxy_addresses
        || is_in address joining
        || ltb max_extra_links (length l.proxy_addresses)
    then ignored
    else if tried_lately now last
    then ignored
    else joined

-- The link is opened, but there is no fan-out any more to add it to.
unfoldable pub is_unwanted : Bool → Text → Links → Bool
unfolding is_none is_in
is_unwanted same_fanout address l =
    l.stopped
    || not same_fanout
    || is_none l.controller
    || is_in address l.proxy_addresses
    || ltb max_extra_links (length l.proxy_addresses)

unfoldable pub with_seq : ℕ → Option Controller → Option Controller
with_seq seq none = none
with_seq seq (some c) = some (record c { seq = seq })

unfoldable pub join : ℕ → Text → ℕ → Links → Links
unfolding with_seq after_start notify_listeners
join client address seq l = record l {
  controller = with_seq seq l.controller;
  extra_clients = l.extra_clients ++ (client ∷ []);
  link_by_bearer = l.link_by_bearer ++ ((client, address) ∷ []);
  proxy_addresses = l.proxy_addresses ++ (address ∷ []);
  cursor = after_start seq l.cursor;
  health = notify_listeners l.health;
  slots = l.slots ++ (client ∷ []);
}

-- `_async_join_late`, once its connect has ended well: `same_fanout` is that the fan-out is still
-- the one it began with, `added` that `fanout.add` does not raise, `seq` the cursor behind the claim
-- of the proxy filter. A connect that raises leaves the state as it is.
unfoldable pub async_join_late : ℕ → Text → Bool → Bool → ℕ → Links → Links
unfolding is_unwanted join close
async_join_late client address same_fanout added seq l =
    if is_unwanted same_fanout address l || not added
    then record l { slots = close client (l.slots ++ (client ∷ [])) }
    else join client address seq l

-- `addresses.remove(address)`, where it is there
unfoldable pub remove : Text → List Text → List Text
remove address [] = []
remove address (a ∷ addresses) =
    let rest = remove address addresses in if bytes_eq a address then addresses else a ∷ rest

unfoldable pub first_of : Option Text → List Text → Option Text
first_of kept [] = kept
first_of kept (address ∷ addresses) = some address

unfoldable pub is_main : ℕ → Option ℕ → Bool
is_main c none = false
is_main c (some d) = c == d

-- The main link is gone: the next one takes its place, if there is one.
unfoldable pub promote : ℕ → List ℕ → Links → Links
unfolding first_of close
promote client [] l = l
promote client (next ∷ extras) l = record l {
  client = some next;
  extra_clients = extras;
  proxy_address = first_of l.proxy_address l.proxy_addresses;
  slots = close client l.slots;
}

unfoldable pub drop_link : ℕ → Text → Links → Links
unfolding remove is_main promote close
drop_link client address l =
    let forgot = record l {
      link_by_bearer = delete client l.link_by_bearer;
      proxy_addresses = remove address l.proxy_addresses;
    } in
    if is_main client l.client then promote client l.extra_clients forgot else record forgot {
      extra_clients = close client l.extra_clients;
      slots = close client l.slots;
    }

-- `_on_link_dropped`, with its disconnect
unfoldable pub on_link_dropped : ℕ → Links → Links
unfolding drop_link get
on_link_dropped client l = elim (get client l.link_by_bearer) [
  | none ↦ l
  | some address ↦ drop_link client address l
]
