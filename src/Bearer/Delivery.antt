-- ===== src/Bearer/Delivery.antt =====
-- What the peer of a bearer of src/btmesh/bearer.py gets of a message that was sent.
use ha_bluetooth_mesh.Prelude.{
  ℕ, zero, suc, ◌+◌, ◌-◌, ◌≤◌, ◌<◌, ◌≡◌, refl, sym, ap, ◌∙◌, subst, ◌⊎◌, arith, Bool, true, Option,
  none, some, List, [], ◌∷◌, ◌++◌, if◌then◌else◌, length, take, All, All-take, Bool-cases, inl, inr,
}
use ha_bluetooth_mesh.Prelude.Bytes.{Bytes}
use ha_bluetooth_mesh.Prelude.Outcome.{Result, ok, err, bearer_error}
use ha_bluetooth_mesh.ProxyPdu.{Reassembler, reset, feed, feed_all, segment, chunks_from}
use ha_bluetooth_mesh.ProxyPdu.RoundTrip.{one_message, length-frames_from, feed_all-segment}
use ha_bluetooth_mesh.ProxyPdu.Frames.{segment_short, segment_long, chunks_from_many}
use native.Mathlib.Decide.{dec_le}
use ha_bluetooth_mesh.Bearer.{
  GattBearer, max_frame, write_frames, send_segmented, send, complete, handle_notify, notify_all,
}

-- The messages among what `feed` gave.
abbrev messages_of : List (Result (Option (ℕ × Bytes))) → List (ℕ × Bytes)
messages_of [] = []
messages_of (ok (some message) ∷ results) = message ∷ messages_of results
messages_of (ok none ∷ results) = messages_of results
messages_of (err e ∷ results) = messages_of results

complete-fields :
    (fed : Reassembler × Result (Option (ℕ × Bytes))) (b : GattBearer)
    → ((complete fed b).0.reassembler ≡ fed.0) × ((complete fed b).0.listening ≡ b.listening)
unfolding complete
complete-fields (r, err e) b = (refl, refl)
complete-fields (r, ok none) b = (refl, refl)
complete-fields (r, ok (some message)) b = (refl, refl)

complete-messages :
    (fed : Reassembler × Result (Option (ℕ × Bytes))) (b : GattBearer) (later : List (ℕ × Bytes))
    (results : List (Result (Option (ℕ × Bytes))))
    → b.listening ≡ true
    → later ≡ messages_of results
    → (complete fed b).1 ++ later ≡ messages_of (fed.1 ∷ results)
unfolding complete
complete-messages (r, err e) b later results on same = same
complete-messages (r, ok none) b later results on same = same
complete-messages (r, ok (some message)) b later results on same =
    ap (λ (l : Bool). (if l then message ∷ [] else []) ++ later) on
    ∙ ap (λ (l : List (ℕ × Bytes)). message ∷ l) same

-- A bearer that listens gets the messages that its reassembler gives.
notify_all-feed_all :
    (frames : List Bytes) (b : GattBearer)
    → b.listening ≡ true
    → (notify_all frames b).1 ≡ messages_of (feed_all b.reassembler frames).1
unfolding notify_all handle_notify feed_all
notify_all-feed_all [] b on = refl
notify_all-feed_all (frame ∷ frames) b on =
    let fed = feed b.reassembler frame in
    let fields = complete-fields fed b in
    let rest = notify_all-feed_all frames (complete fed b).0 (fields.1 ∙ on) in
    complete-messages fed b (notify_all frames (complete fed b).0).1 (feed_all fed.0 frames).1 on
      (rest ∙ ap (λ (r : Reassembler). messages_of (feed_all r frames).1) fields.0)

feed_all-take :
    (n : ℕ) (frames : List Bytes) (r : Reassembler)
    → (feed_all r (take n frames)).1 ≡ take n (feed_all r frames).1
unfolding feed_all
feed_all-take zero frames r = refl
feed_all-take (suc n) [] r = refl
feed_all-take (suc n) (frame ∷ frames) r =
    let (r', result) = feed r frame in
    ap (λ (l : List (Result (Option (ℕ × Bytes)))). result ∷ l) (feed_all-take n frames r')

-- No message comes before the last frame.
messages_of-one_message :
    (n m msg_type : ℕ) (payload : Bytes)
    → n < m
    → messages_of (take n (one_message m msg_type payload)) ≡ []
messages_of-one_message zero m msg_type payload small = refl
messages_of-one_message (suc n) zero msg_type payload small = refl
messages_of-one_message (suc zero) (suc zero) msg_type payload small = absurd (omega (arith, small))
messages_of-one_message (suc (suc n)) (suc zero) msg_type payload small =
    absurd (omega (arith, small))
messages_of-one_message (suc n) (suc (suc m)) msg_type payload small =
    messages_of-one_message n (suc m) msg_type payload (omega (arith, small))

messages_of-whole :
    (m msg_type : ℕ) (payload : Bytes)
    → 0 < m
    → messages_of (one_message m msg_type payload) ≡ (msg_type, payload) ∷ []
messages_of-whole zero msg_type payload pos' = absurd (omega (arith, pos'))
messages_of-whole (suc zero) msg_type payload pos' = refl
messages_of-whole (suc (suc m)) msg_type payload pos' =
    messages_of-whole (suc m) msg_type payload (omega arith)

-- How many frames are written: all, or those before the first write that raises.
written : (ℕ → Bool) → ℕ → List Bytes → ℕ
written accepts i [] = 0
written accepts i (frame ∷ frames) =
    let rest = written accepts (i + 1) frames in if accepts i then suc rest else 0

write_frames-take :
    (accepts : ℕ → Bool) (i : ℕ) (frames : List Bytes)
    → let n = written accepts i frames in
      ((write_frames accepts i frames).0 ≡ take n frames)
      × (((write_frames accepts i frames).1 ≡ ok tt) × (n ≡ length frames)
          ⊎ ((write_frames accepts i frames).1 ≡ err bearer_error) × (n < length frames))
unfolding write_frames written
write_frames-take accepts i [] = (refl, inl (refl, refl))
write_frames-take accepts i (frame ∷ frames) =
    let rest = write_frames-take accepts (i + 1) frames in
    elim (Bool-cases (accepts i)) [
      | inl yes' ↦ rw yes' (
        ap (λ (l : List Bytes). frame ∷ l) rest.0,
        elim rest.1 [
          | inl (fine, all) ↦ inl (fine, ap suc all)
          | inr (raised', few) ↦ inr (raised', omega (arith, few))
        ],
      )
      | inr no' ↦ rw no' (refl, inr (refl, omega arith))
    ]

-- What the other end gets of the frames that were written.
notified :
    (n msg_type : ℕ) (payload : Bytes) (peer : GattBearer) (frames : List Bytes)
    → peer.listening ≡ true
    → peer.reassembler ≡ reset
    → feed_all reset frames ≡ (reset, one_message (length frames) msg_type payload)
    → (notify_all (take n frames) peer).1
      ≡ messages_of (take n (one_message (length frames) msg_type payload))
notified n msg_type payload peer frames on idle fed =
    notify_all-feed_all (take n frames) peer on
    ∙ ap (λ (r : Reassembler). messages_of (feed_all r (take n frames)).1) idle
    ∙ ap messages_of (feed_all-take n frames reset)
    ∙ ap (λ (f : Reassembler × List (Result (Option (ℕ × Bytes)))). messages_of (take n f.1)) fed

take-one_message :
    (m msg_type : ℕ) (payload : Bytes)
    → take m (one_message m msg_type payload) ≡ one_message m msg_type payload
take-one_message zero msg_type payload = refl
take-one_message (suc zero) msg_type payload = refl
take-one_message (suc (suc m)) msg_type payload =
    ap (λ (l : List (Result (Option (ℕ × Bytes)))). ok none ∷ l)
      (take-one_message (suc m) msg_type payload)

sent_notified :
    (accepts : ℕ → Bool) (msg_type : ℕ) (payload : Bytes) (peer : GattBearer) (frames : List Bytes)
    (size : ℕ)
    → peer.listening ≡ true
    → peer.reassembler ≡ reset
    → 0 < length frames
    → All (λ (frame : Bytes). length frame ≤ size) frames
    → feed_all reset frames ≡ (reset, one_message (length frames) msg_type payload)
    → let (sent, result) = write_frames accepts 0 frames in
      All (λ (frame : Bytes). length frame ≤ size) sent
      × (((result ≡ ok tt) × ((notify_all sent peer).1 ≡ (msg_type, payload) ∷ []))
          ⊎ ((result ≡ err bearer_error) × ((notify_all sent peer).1 ≡ [])))
sent_notified accepts msg_type payload peer frames size on idle some' fit fed =
    let n = written accepts 0 frames in
    let sent = write_frames-take accepts 0 frames in
    let got =
      ap (λ (l : List Bytes). (notify_all l peer).1) sent.0
      ∙ notified n msg_type payload peer frames on idle fed in
    let m = length frames in
    (
      subst (All (λ (frame : Bytes). length frame ≤ size)) (sym sent.0)
          (All-take (λ (frame : Bytes). length frame ≤ size) n frames fit),
      elim sent.1 [
        | inl (fine, all) ↦ inl (
          fine,
          got
              ∙ ap (λ (k : ℕ). messages_of (take k (one_message m msg_type payload))) all
              ∙ ap messages_of (take-one_message m msg_type payload)
              ∙ messages_of-whole m msg_type payload some',
        )
        | inr (raised', few) ↦ inr (raised', got ∙ messages_of-one_message n m msg_type payload few)
      ],
    )

max_frame-le : (mtu : Option ℕ) → 2 ≤ max_frame mtu
unfolding max_frame
max_frame-le none = omega arith
max_frame-le (some mtu) = ground arith

abbrev HasFrames : Result (List Bytes) → Type 0
HasFrames (ok frames) = 0 < length frames
HasFrames (err e) = Unit

segment-HasFrames :
    (msg_type : ℕ) (payload : Bytes) (mtu : ℕ)
    → msg_type < 64
    → 2 ≤ mtu
    → HasFrames (segment msg_type payload mtu)
segment-HasFrames msg_type payload mtu small room = elim (dec_le (length payload) (mtu - 1)) [
  | yes short ↦
      subst HasFrames (sym (segment_short msg_type payload mtu small room short)) (omega arith)
  | no long ↦
      let parts = chunks_from (length payload) 0 (mtu - 1) payload in
      let many =
        chunks_from_many (length payload) (mtu - 1) payload (omega arith) (omega arith)
          (omega arith) in
      subst HasFrames (sym (segment_long msg_type payload mtu small room (omega arith)))
        (omega (arith, many, length-frames_from msg_type (length parts) 0 parts))
]

-- A message of a type of 6 bits, whatever the MTU that the client says and whichever writes raise:
-- every frame that is written fits the frame budget. Where `send` returns, a bearer at the other end
-- that listens and is idle, notified of the frames in order, passes on the message once and nothing
-- else; where it raises, that is a BearerError, and the other end passes on nothing.
pub send-notify_all :
    (mtu : Option ℕ) (accepts : ℕ → Bool) (msg_type : ℕ) (payload : Bytes) (peer : GattBearer)
    → msg_type < 64
    → peer.listening ≡ true
    → peer.reassembler ≡ reset
    → let (frames, result) = send mtu accepts msg_type payload in
      All (λ (frame : Bytes). length frame ≤ max_frame mtu) frames
      × (((result ≡ ok tt) × ((notify_all frames peer).1 ≡ (msg_type, payload) ∷ []))
          ⊎ ((result ≡ err bearer_error) × ((notify_all frames peer).1 ≡ [])))
unfolding send
send-notify_all mtu accepts msg_type payload peer small on idle =
    let (frames, segments, fit, fed) =
      feed_all-segment msg_type payload (max_frame mtu) small (max_frame-le mtu) in
    subst
      (λ (r : Result (List Bytes)).
        let (sent, result) = send_segmented accepts r in
        All (λ (frame : Bytes). length frame ≤ max_frame mtu) sent
        × (((result ≡ ok tt) × ((notify_all sent peer).1 ≡ (msg_type, payload) ∷ []))
            ⊎ ((result ≡ err bearer_error) × ((notify_all sent peer).1 ≡ []))))
      (sym segments)
      (sent_notified accepts msg_type payload peer frames (max_frame mtu) on idle
        (subst HasFrames segments
          (segment-HasFrames msg_type payload (max_frame mtu) small (max_frame-le mtu)))
        fit fed)
