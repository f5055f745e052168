-- ===== src/ProxyPdu.antt =====
-- src/btmesh/proxy_pdu.py: segmentation and reassembly of Proxy PDUs. A Python int that the code
-- checks against a range from 0 up is a ℕ here, so the lower half of such a check is always met.
pub mod Frames
pub mod RoundTrip
pub mod Errors
mod Tests
use ha_bluetooth_mesh.Prelude.{
  ℕ, zero, suc, ◌+◌, ◌-◌, ◌*◌, ◌/◌, ◌%◌, ◌^◌, bit_or, Bool, true, false, Option, none, some, List,
  [], ◌∷◌, ◌++◌, ltb, leb, ◌==◌, if◌then◌else◌, not, length, slice,
}
use ha_bluetooth_mesh.Prelude.Bytes.{Bytes}
use ha_bluetooth_mesh.Prelude.Outcome.{Result, ok, err, ◌>>=◌, ◌>>◌, require, proxy_pdu_error}

abbrev pub sar_complete : ℕ
sar_complete = 0

abbrev pub sar_first : ℕ
sar_first = 1

abbrev pub sar_continuation : ℕ
sar_continuation = 2

abbrev pub sar_last : ℕ
sar_last = 3

-- The message types of the proxy protocol.
abbrev pub msg_type_network_pdu : ℕ
msg_type_network_pdu = 0x00

abbrev pub msg_type_mesh_beacon : ℕ
msg_type_mesh_beacon = 0x01

abbrev pub msg_type_proxy_config : ℕ
msg_type_proxy_config = 0x02

abbrev pub msg_type_provisioning_pdu : ℕ
msg_type_provisioning_pdu = 0x03

-- `(sar << 6) | msg_type`. It is a byte wherever it is used: `segment` checks the type first.
unfoldable pub header : ℕ → ℕ → ℕ
header sar msg_type = bit_or (sar * 2 ^ 6) msg_type

-- `payload[i : i + chunk] for i in range(0, len(payload), chunk)`, from `i` on. As many rounds as
-- the payload has bytes are enough, since `chunk` is at least 1.
unfoldable pub chunks_from : ℕ → ℕ → ℕ → Bytes → List Bytes
chunks_from zero i chunk payload = []
chunks_from (suc fuel) i chunk payload =
    let rest = chunks_from fuel (i + chunk) chunk payload in
    if ltb i (length payload) then slice i (i + chunk) payload ∷ rest else []

-- The SAR field of part `i` of `n`.
unfoldable pub sar_at : ℕ → ℕ → ℕ
sar_at i n = if i == 0 then sar_first else if i == n - 1 then sar_last else sar_continuation

-- The loop over `enumerate(chunks)`: `i` is the index of the first part left, `n` is `len(chunks)`.
unfoldable pub frames_from : ℕ → ℕ → ℕ → List Bytes → List Bytes
frames_from msg_type n i [] = []
frames_from msg_type n i (part ∷ parts) =
    (header (sar_at i n) msg_type ∷ part) ∷ frames_from msg_type n (i + 1) parts

unfoldable pub segment : ℕ → Bytes → ℕ → Result (List Bytes)
segment msg_type payload mtu = do
  require (leb msg_type 0x3F) proxy_pdu_error
  require (not (ltb mtu 2)) proxy_pdu_error
  let chunk = mtu - 1
  let chunks = chunks_from (length payload) 0 chunk payload
  if leb (length payload) chunk
      then ok ((header sar_complete msg_type ∷ payload) ∷ [])
      else ok (frames_from msg_type (length chunks) 0 chunks)

pub record Reassembler : Type 0 where
  pub msg_type : Option ℕ
  pub buffer : Bytes

-- `Reassembler()`, and the state after `_reset`
abbrev pub reset : Reassembler
reset = record { msg_type = none; buffer = [] }

-- What `feed` leaves: the new state, and the value returned or the exception raised.
abbrev pub Fed : Type 0
Fed = Reassembler × Result (Option (ℕ × Bytes))

-- `self._fail(...)`
abbrev pub fail : Fed
fail = (reset, err proxy_pdu_error)

-- The part of `feed` for SAR_CONTINUATION and SAR_LAST.
unfoldable pub feed_more : Reassembler → ℕ → ℕ → Bytes → Fed
feed_more r sar msg_type payload = elim r.msg_type [
  | none ↦ fail
  | some current ↦
      let buffer = r.buffer ++ payload in
      if not (msg_type == current)
      then fail
      else if sar == sar_last
      then (reset, ok (some (msg_type, buffer)))
      else (record r { buffer = buffer }, ok none)
]

unfoldable pub feed : Reassembler → Bytes → Fed
unfolding feed_more
feed r [] = fail
feed r (octet ∷ payload) =
    let sar = octet / 2 ^ 6 in
    let msg_type = octet % 2 ^ 6 in
    let in_progress : Bool = elim r.msg_type [ none ↦ false | some t ↦ true ] in
    if sar == sar_complete
    then (if in_progress then fail else (r, ok (some (msg_type, payload))))
    else if sar == sar_first
    then (if in_progress
        then fail
        else (record { msg_type = some msg_type; buffer = payload }, ok none))
    else feed_more r sar msg_type payload

-- Frames fed one after the other, as the bearer does: the last state, and what each call gave.
unfoldable pub feed_all :
    Reassembler → List Bytes → Reassembler × List (Result (Option (ℕ × Bytes)))
feed_all r [] = (r, [])
feed_all r (f ∷ fs) =
    let (r', result) = feed r f in let (r'', results) = feed_all r' fs in (r'', result ∷ results)
