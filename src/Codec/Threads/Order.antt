-- ===== src/Codec/Threads/Order.antt =====
-- The threads of `cwipc_encoder_impl` (cwipc_codec/src/cwipc_codec.cpp): the frames stay in order.
use cwipc.Common.{ℕ, ◌≡◌, ◌∙◌, refl, sym, ap, List, [], ◌∷◌, ◌++◌, All, arith, true}
use mathlib.Core.Path.{subst}
use mathlib.Core.List.{append_assoc, append-nil}
use cwipc.World.{World, Env}
use cwipc.Codec.{Codec, Encoder, EncoderParams}
use cwipc.Codec.Single.{copy_data, new_encoder_impl}
use cwipc.Codec.Threads.{
  Action, feeds, copies, tilefilter_turn, encoder_turn, act, run, enable_threads,
}
use cwipc.Codec.Threads.Running.{IsRunning, SoundEntry, Keeps, SoundAction, fed_by, times}
use cwipc.Codec.Threads.Turns.{feeds-Keeps, tilefilter_turn-Keeps, encoder_turn-Keeps}

copy_data_lem :
    (e : Encoder) (size : ℕ)
    → let e' = (copy_data e size).2 in
      (e'.m_alive ≡ e.m_alive)
      × (e'.m_use_threads ≡ e.m_use_threads)
      × (e'.tilefilter_waits ≡ e.tilefilter_waits)
      × (e'.encoder_waits ≡ e.encoder_waits)
      × (e'.m_queue_tilefilter ≡ e.m_queue_tilefilter)
      × (e'.m_queue_encoder ≡ e.m_queue_encoder)
      × (e'.m_encoder ≡ e.m_encoder)
unfolding copy_data
copy_data_lem e size = ground arith

pub copies-Keeps : (e : Encoder) (size : ℕ) → IsRunning e → Keeps e (copy_data e size).2 []
copies-Keeps e size r =
    let (alive, threads, tilefilter, encoder, tq, eq, coder) = copy_data_lem e size in
    (
      record {
        alive = alive ∙ r.alive;
        threads = threads ∙ r.threads;
        tilefilter = tilefilter ∙ r.tilefilter;
        encoder = encoder ∙ r.encoder;
        tilefilter_queue = subst (All SoundEntry) (sym tq) r.tilefilter_queue;
        encoder_queue = subst (All SoundEntry) (sym eq) r.encoder_queue;
      },
      rw (tq, eq, coder) (sym (append-nil (times e))),
    )

pub act-Keeps :
    (env : Env) (codec : Codec) (a : Action) (e : Encoder) (w : World)
    → SoundAction a
    → IsRunning e
    → Keeps e (act env codec a e w).0 (fed_by a)
unfolding act
act-Keeps env codec (feeds p) e w sound r = feeds-Keeps env codec p e w sound r
act-Keeps env codec (copies size) e w sound r = copies-Keeps e size r
act-Keeps env codec tilefilter_turn e w sound r =
    tilefilter_turn-Keeps env codec e e.m_queue_tilefilter w refl r.tilefilter_queue r
act-Keeps env codec encoder_turn e w sound r =
    encoder_turn-Keeps env codec e e.m_queue_encoder w refl r.encoder_queue r

-- The time stamps of what a schedule feeds.
abbrev pub fed : List Action → List ℕ
fed [] = []
fed (a ∷ schedule) = fed_by a ++ fed schedule

run-Keeps :
    (env : Env) (codec : Codec) (schedule : List Action) (e : Encoder) (w : World)
    → All SoundAction schedule
    → IsRunning e
    → Keeps e (run env codec schedule e w).0 (fed schedule)
unfolding run
run-Keeps env codec [] e w sound r = (r, sym (append-nil (times e)))
run-Keeps env codec (a ∷ schedule) e w sound r =
    let (e', w') = act env codec a e w in
    let (r', step) = act-Keeps env codec a e w sound.0 r in
    let (r'', rest) = run-Keeps env codec schedule e' w' sound.1 r' in
    (r'', rest ∙ ap (◌++ (fed schedule)) step ∙ append_assoc (times e) (fed_by a) (fed schedule))

-- In any interleaving of feeding and copying with the turns of the two threads of a new encoder,
-- where every object that is fed shows some points and has a cell size that is not negative, the
-- encoder stays open, and the time stamps of the frames that the codec has encoded, then of those
-- in the second queue, then of those in the first, are those of the objects in the order in which
-- they were fed.
pub run-keeps_order :
    (env : Env) (codec : Codec) (params : EncoderParams) (schedule : List Action) (w : World)
    → All SoundAction schedule
    → let e = (run env codec schedule (enable_threads codec (new_encoder_impl params)) w).0 in
      (e.m_alive ≡ true) × (times e ≡ fed schedule)
unfolding enable_threads
run-keeps_order env codec params schedule w sound =
    let started = enable_threads codec (new_encoder_impl params) in
    let r : IsRunning started = record {
      alive = refl;
      threads = refl;
      tilefilter = refl;
      encoder = refl;
      tilefilter_queue = tt;
      encoder_queue = tt;
    } in
    let (r', all) = run-Keeps env codec schedule started w sound r in (r'.alive, all)
