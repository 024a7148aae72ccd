-- ===== src/Codec/Threads/Running.antt =====
-- The threads of `cwipc_encoder_impl` (cwipc_codec/src/cwipc_codec.cpp): an encoder that runs, and the
-- frames in it.
use cwipc.Common.{ℕ, ◌≡◌, refl, ap, true, false, Option, none, some, List, [], ◌∷◌, ◌++◌, map, All}
use cwipc.Float32.{lt_f, zero_f}
use cwipc.Point.{Point}
use cwipc.Pointcloud.{Pointcloud}
use cwipc.Pointcloud.View.{Shows, Few}
use cwipc.Pointcloud.Virtual
use cwipc.Codec.{Coder, Encoder}
use cwipc.Codec.Threads.{Action, feeds}

-- An object that shows some points.
abbrev pub Sound : Pointcloud → Type 0
Sound p = (ps : List Point) × Few ps × Shows p ps × (lt_f (Virtual.cellsize p) zero_f ≡ false)

abbrev pub SoundEntry : Option Pointcloud → Type 0
SoundEntry none = ⊥
SoundEntry (some p) = Sound p

-- An open encoder with both threads running and only sound objects in its queues.
pub record IsRunning (e : Encoder) : Type 0 where
  pub alive : e.m_alive ≡ true
  pub threads : e.m_use_threads ≡ true
  pub tilefilter : e.tilefilter_waits ≡ true
  pub encoder : e.encoder_waits ≡ true
  pub tilefilter_queue : All SoundEntry e.m_queue_tilefilter
  pub encoder_queue : All SoundEntry e.m_queue_encoder

-- The time stamps of the frames that the codec has encoded, in order.
abbrev pub encoded_times : Option Coder → List ℕ
encoded_times none = []
encoded_times (some coder) = map (λ f. f.timestamp) coder.encoded

abbrev pub queued_times : List (Option Pointcloud) → List ℕ
queued_times [] = []
queued_times (none ∷ queue) = queued_times queue
queued_times (some p ∷ queue) = Virtual.timestamp p ∷ queued_times queue

-- All that was fed, from what is encoded to what was fed last.
abbrev pub times : Encoder → List ℕ
times e =
    encoded_times e.m_encoder
    ++ (queued_times e.m_queue_encoder ++ queued_times e.m_queue_tilefilter)

abbrev pub fed_by : Action → List ℕ
fed_by (feeds p) = Virtual.timestamp p ∷ []
fed_by a = []

abbrev pub SoundAction : Action → Type 0
SoundAction (feeds p) = Sound p
SoundAction a = Unit

pub queued_times-append :
    (xs : List (Option Pointcloud)) (p : Pointcloud)
    → queued_times (xs ++ some p ∷ []) ≡ queued_times xs ++ Virtual.timestamp p ∷ []
queued_times-append [] p = refl
queued_times-append (none ∷ xs) p = queued_times-append xs p
queued_times-append (some q ∷ xs) p = ap (◌∷◌ (Virtual.timestamp q)) (queued_times-append xs p)

-- What one step keeps.
abbrev pub Keeps : Encoder → Encoder → List ℕ → Type 0
Keeps e e' fed = IsRunning e' × (times e' ≡ times e ++ fed)
