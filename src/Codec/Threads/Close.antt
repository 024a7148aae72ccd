-- ===== src/Codec/Threads/Close.antt =====
-- `close` of an encoder with threads (cwipc_codec/src/cwipc_codec.cpp): both threads end.
use cwipc.Common.{
  ◌≡◌, ◌∙◌, refl, Bool, true, false, Option, none, some, List, [], ◌∷◌, ◌++◌, length, arith,
  Bool-cases, inl, inr,
}
use cwipc.World.{World, Env}
use cwipc.Pointcloud.{Pointcloud}
use cwipc.Codec.{Codec, Encoder, returns}
use cwipc.Codec.Single.{
  encode_pointcloud, filter_and_enqueue, encode_pcl, with_coder, run_single_encode,
  run_single_tilefilter,
}
use cwipc.Codec.Threads.{
  close, try_enqueue_null, join_encoder, join_tilefilter, turn_encoder, turn_tilefilter,
  end_encoder, end_tilefilter,
}

-- A queue has an element after `try_enqueue`, whether there was room or not.
try_enqueue_null-cons :
    (codec : Codec) (queue : List (Option Pointcloud))
    → codec.has_room 0 ≡ true
    → (x : Option Pointcloud) × (xs : List (Option Pointcloud)) × (try_enqueue_null codec queue
        ≡ x ∷ xs)
unfolding try_enqueue_null
try_enqueue_null-cons codec [] room = (none, [], rw room refl)
try_enqueue_null-cons codec (x ∷ xs) room = elim (Bool-cases (codec.has_room (length (x ∷ xs)))) [
  | inl h ↦ (x, xs ++ none ∷ [], rw h refl)
  | inr h ↦ (x, xs, rw h refl)
]

encode_pointcloud-flags :
    (codec : Codec) (p : Pointcloud) (e : Encoder) (w : World)
    → let e' = (encode_pointcloud codec p e w).0.1 in
      (e'.m_alive ≡ e.m_alive)
      × (e'.m_queue_tilefilter ≡ e.m_queue_tilefilter)
      × (e'.tilefilter_waits ≡ e.tilefilter_waits)
unfolding encode_pointcloud encode_pcl with_coder
encode_pointcloud-flags codec p e w = ground arith

filter_and_enqueue-flags :
    (env : Env) (p : Pointcloud) (e : Encoder) (w : World)
    → let e' = (filter_and_enqueue env p e w).0.1 in
      (e'.m_alive ≡ e.m_alive) × (e'.encoder_waits ≡ e.encoder_waits)
unfolding filter_and_enqueue
filter_and_enqueue-flags env p e w = ground arith

turn_encoder_lem :
    (ok : Bool) (e e' : Encoder) (w : World)
    → e'.m_alive ≡ false
    → (turn_encoder (returns (ok, e')) e w).0 ≡ end_encoder e'
unfolding turn_encoder
turn_encoder_lem true e e' w closed = rw closed refl
turn_encoder_lem false e e' w closed = refl

turn_tilefilter_lem :
    (codec : Codec) (ok : Bool) (e e' : Encoder) (w : World)
    → e'.m_alive ≡ false
    → (turn_tilefilter codec (returns (ok, e')) e w).0 ≡ end_tilefilter codec e'
unfolding turn_tilefilter
turn_tilefilter_lem codec true e e' w closed = rw closed refl
turn_tilefilter_lem codec false e e' w closed = refl

-- The last turn of a thread that runs.
encode_next-closed :
    (codec : Codec) (e : Encoder) (x : Option Pointcloud) (xs : List (Option Pointcloud))
    (w : World)
    → e.m_alive ≡ false
    → e.m_queue_encoder ≡ x ∷ xs
    → (ok : Bool) × (e' : Encoder) × ((run_single_encode codec e w).0 ≡ returns (ok, e'))
      × (e'.m_alive ≡ false)
      × (e'.m_queue_tilefilter ≡ e.m_queue_tilefilter)
unfolding run_single_encode
encode_next-closed codec e none xs w closed h =
    (false, record e { m_queue_encoder = xs }, rw h refl, closed, refl)
encode_next-closed codec e (some p) xs w closed h =
    let e₁ : Encoder = record e { m_queue_encoder = xs } in
    let (ok, e') = (encode_pointcloud codec p e₁ w).0 in
    let (alive, tq, waits) = encode_pointcloud-flags codec p e₁ w in
    (ok, e', rw h refl, alive ∙ closed, tq)

tilefilter_next-closed :
    (env : Env) (e : Encoder) (x : Option Pointcloud) (xs : List (Option Pointcloud)) (w : World)
    → e.m_alive ≡ false
    → e.m_queue_tilefilter ≡ x ∷ xs
    → (ok : Bool) × (e' : Encoder) × ((run_single_tilefilter env e w).0 ≡ returns (ok, e'))
      × (e'.m_alive ≡ false)
      × (e'.encoder_waits ≡ e.encoder_waits)
unfolding run_single_tilefilter
tilefilter_next-closed env e none xs w closed h =
    (false, record e { m_queue_tilefilter = xs }, rw h refl, closed, refl)
tilefilter_next-closed env e (some p) xs w closed h =
    let e₁ : Encoder = record e { m_queue_tilefilter = xs } in
    let (ok, e') = (filter_and_enqueue env p e₁ w).0 in
    let (alive, waits) = filter_and_enqueue-flags env p e₁ w in
    (ok, e', rw h refl, alive ∙ closed, waits)

join_encoder_lem :
    (codec : Codec) (e : Encoder) (x : Option Pointcloud) (xs : List (Option Pointcloud))
    (w : World)
    → e.m_alive ≡ false
    → e.m_queue_encoder ≡ x ∷ xs
    → (e' : Encoder) × ((join_encoder codec e w).0 ≡ returns e')
      × (e'.m_alive ≡ false)
      × (e'.encoder_waits ≡ false)
      × (e'.m_queue_tilefilter ≡ e.m_queue_tilefilter)
unfolding join_encoder
join_encoder_lem codec e x xs w closed h = elim (Bool-cases e.encoder_waits) [
  | inr ended ↦ (e, ground arith, closed, ended, refl)
  | inl runs ↦
      let (ok, e', turn, alive, tq) = encode_next-closed codec e x xs w closed h in
      let last = turn_encoder_lem ok e e' (run_single_encode codec e w).1 alive in
      (end_encoder e', ground (arith, turn, last), refl, refl, tq)
]

join_tilefilter_lem :
    (env : Env) (codec : Codec) (e : Encoder) (x : Option Pointcloud)
    (xs : List (Option Pointcloud)) (w : World)
    → e.m_alive ≡ false
    → e.encoder_waits ≡ false
    → e.m_queue_tilefilter ≡ x ∷ xs
    → (e' : Encoder) × ((join_tilefilter env codec e w).0 ≡ returns e')
      × (e'.m_alive ≡ false)
      × (e'.encoder_waits ≡ false)
      × (e'.tilefilter_waits ≡ false)
unfolding join_tilefilter
join_tilefilter_lem env codec e x xs w closed over h = elim (Bool-cases e.tilefilter_waits) [
  | inr ended ↦ (e, ground arith, closed, over, ended)
  | inl runs ↦
      let (ok, e', turn, alive, waits) = tilefilter_next-closed env e x xs w closed h in
      let last = turn_tilefilter_lem codec ok e e' (run_single_tilefilter env e w).1 alive in
      (end_tilefilter codec e', ground (arith, turn, last), refl, waits ∙ over, refl)
]

abbrev closing : Codec → Encoder → Encoder
closing codec e = record e {
  m_alive = false;
  m_queue_encoder = try_enqueue_null codec e.m_queue_encoder;
  m_queue_tilefilter = try_enqueue_null codec e.m_queue_tilefilter;
}

close_lem :
    (env : Env) (codec : Codec) (e e₂ e₃ : Encoder) (w : World)
    → e.m_use_threads ≡ true
    → let (rv, w₁) = join_encoder codec (closing codec e) w in
      (rv ≡ returns e₂)
      → (join_tilefilter env codec e₂ (join_encoder codec (closing codec e) w).1).0 ≡ returns e₃
      → (close env codec e w).0 ≡ returns (record e₃ { m_use_threads = false })
unfolding close
close_lem env codec e e₂ e₃ w threaded a b = ground arith

-- Closing an encoder with threads returns whatever its queues hold, if try_enqueue finds room in
-- an empty queue, and then the encoder is not alive and both threads have ended.
pub close_returns :
    (env : Env) (codec : Codec) (e : Encoder) (w : World)
    → codec.has_room 0 ≡ true
    → e.m_use_threads ≡ true
    → (e' : Encoder) × ((close env codec e w).0 ≡ returns e')
      × (e'.m_alive ≡ false)
      × (e'.encoder_waits ≡ false)
      × (e'.tilefilter_waits ≡ false)
unfolding close
close_returns env codec e w room threaded =
    let e₁ : Encoder = record e {
      m_alive = false;
      m_queue_encoder = try_enqueue_null codec e.m_queue_encoder;
      m_queue_tilefilter = try_enqueue_null codec e.m_queue_tilefilter;
    } in
    let (x, xs, some_encode) = try_enqueue_null-cons codec e.m_queue_encoder room in
    let (y, ys, some_filter) = try_enqueue_null-cons codec e.m_queue_tilefilter room in
    let (e₂, joined, alive, ended, tq) = join_encoder_lem codec e₁ x xs w refl some_encode in
    let w₁ = (join_encoder codec e₁ w).1 in
    let (e₃, joined', alive', ended', ended'') =
      join_tilefilter_lem env codec e₂ y ys w₁ alive ended (tq ∙ some_filter) in
    (
      record e₃ { m_use_threads = false },
      close_lem env codec e e₂ e₃ w threaded joined joined',
      alive',
      ended',
      ended'',
    )
