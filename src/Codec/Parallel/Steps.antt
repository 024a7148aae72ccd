-- ===== src/Codec/Parallel/Steps.antt =====
-- `cwipc_multithreaded_encoder_impl` (cwipc_codec/src/cwipc_codec.cpp): what one step keeps.
use cwipc.Common.{
  ℕ, ◌+◌, ◌%◌, ◌<◌, ◌≡◌, ◌∙◌, sym, ap, Bool, true, false, none, some, List, [], ◌∷◌, ◌++◌, length,
  length-append, length-set, get_elem?, set, ◌==◌, if◌then◌else◌, arith,
}
use mathlib.Core.Path.{subst}
use mathlib.Core.List.{append-nil}
use native.Mathlib.Nat.{mod-add-mod, mod-lt}
use cwipc.World.{World, Env, M, pure, ◌>>=◌}
use cwipc.Pointcloud.{Pointcloud}
use cwipc.Pointcloud.Virtual
use cwipc.World.{Outcome, done, undefined}
use cwipc.Codec.{Codec, Encoder, Waits, returns, blocks}
use cwipc.Codec.Single
use cwipc.Codec.Threads
use cwipc.Codec.Threads.{enable_threads}
use cwipc.Codec.Threads.Running.{IsRunning, Keeps, Sound, times}
use cwipc.Codec.Threads.Turns.{feed-returns, feeds-Keeps}
use cwipc.Codec.Threads.Order.{copies-Keeps}
use cwipc.Codec.Parallel.{MultithreadedEncoder, feed, copy_data}
use cwipc.Codec.Parallel.Deal.{dealt, dealt-append, Slot, set-Slot}

-- What can happen to an open encoder: a cloud is fed, a result is read, or a thread of one of its
-- encoders takes a turn.
pub data Event : Type 0 where
  feeds : Pointcloud → Event
  reads : ℕ → Event
  tilefilter_turn encoder_turn : ℕ → Event

after_feed : Outcome (Waits MultithreadedEncoder) → MultithreadedEncoder → MultithreadedEncoder
after_feed undefined m = m
after_feed (done blocks) m = m
after_feed (done (returns m')) m = m'

after_read :
    Outcome (Bool × List ℕ × MultithreadedEncoder) → MultithreadedEncoder → MultithreadedEncoder
after_read undefined m = m
after_read (done r) m = r.2

pub turn : Env → Codec → Threads.Action → ℕ → MultithreadedEncoder → M MultithreadedEncoder
turn env codec a i m = elim (get_elem? m.m_encoders i) [
  | none ↦ pure m
  | some e ↦ do
    e' ← Threads.act env codec a e
    pure (record m { m_encoders = set m.m_encoders i e' })
]

unfoldable pub happen : Env → Codec → Event → MultithreadedEncoder → M MultithreadedEncoder
unfolding after_feed after_read turn
happen env codec (feeds p) m = do rv ← feed env codec m p; pure (after_feed rv.1 m)
happen env codec (reads size) m = pure (after_read (copy_data m size) m)
happen env codec (tilefilter_turn i) m = turn env codec Threads.tilefilter_turn i m
happen env codec (encoder_turn i) m = turn env codec Threads.encoder_turn i m

unfoldable pub run : Env → Codec → List Event → MultithreadedEncoder → M MultithreadedEncoder
unfolding happen
run env codec [] m = pure m
run env codec (event ∷ events) m = do m' ← happen env codec event m; run env codec events m'

-- Sound objects are fed, and the turns are those of an encoder that is there.
abbrev pub SoundEvent : ℕ → Event → Type 0
SoundEvent n (feeds p) = Sound p
SoundEvent n (reads size) = Unit
SoundEvent n (tilefilter_turn i) = i < n
SoundEvent n (encoder_turn i) = i < n

abbrev pub fed_by : Event → List ℕ
fed_by (feeds p) = Virtual.timestamp p ∷ []
fed_by event = []

abbrev pub fed : List Event → List ℕ
fed [] = []
fed (event ∷ events) = fed_by event ++ fed events

-- Every encoder runs and was fed its share.
pub record IsDealt (n : ℕ) (m : MultithreadedEncoder) (ts : List ℕ) : Type 0 where
  pub positive : 0 < n
  pub number : m.m_nencoder ≡ n
  pub size : length m.m_encoders ≡ n
  pub next_in : m.m_next_in ≡ length ts % n
  pub next_out : m.m_next_out < n
  pub slots : (i : ℕ) → i < n → Slot m.m_encoders i (dealt n i 0 ts)

feed_lem :
    (env : Env) (codec : Codec) (m : MultithreadedEncoder) (p : Pointcloud) (e e' : Encoder)
    (w : World)
    → get_elem? m.m_encoders m.m_next_in ≡ some e
    → (Single.feed env codec e p w).0.1 ≡ returns e'
    → (happen env codec (feeds p) m w).0 ≡ record m {
      m_encoders = set m.m_encoders m.m_next_in e';
      m_next_in = (m.m_next_in + 1) % m.m_nencoder;
    }
unfolding happen feed
feed_lem env codec m p e e' w found fed = ground arith

turn_lem :
    (env : Env) (codec : Codec) (a : Threads.Action) (i : ℕ) (m : MultithreadedEncoder)
    (e : Encoder) (w : World)
    → get_elem? m.m_encoders i ≡ some e
    → (turn env codec a i m w).0
      ≡ record m { m_encoders = set m.m_encoders i (Threads.act env codec a e w).0 }
unfolding turn
turn_lem env codec a i m e w found = ground arith

read_lem :
    (env : Env) (codec : Codec) (m : MultithreadedEncoder) (size : ℕ) (e : Encoder) (w : World)
    → 0 < m.m_nencoder
    → get_elem? m.m_encoders m.m_next_out ≡ some e
    → (happen env codec (reads size) m w).0 ≡ record m {
      m_encoders = set m.m_encoders m.m_next_out (Single.copy_data e size).2;
      m_next_out = (m.m_next_out + 1) % m.m_nencoder;
    }
unfolding happen copy_data
read_lem env codec m size e w some_encoder found = ground arith

if_nothing : (b : Bool) (xs : List ℕ) → xs ++ (if b then [] else []) ≡ xs
if_nothing true xs = append-nil xs
if_nothing false xs = append-nil xs

pub feeds-IsDealt :
    (env : Env) (codec : Codec) (n : ℕ) (m : MultithreadedEncoder) (ts : List ℕ) (p : Pointcloud)
    (w : World)
    → Sound p
    → IsDealt n m ts
    → IsDealt n (happen env codec (feeds p) m w).0 (ts ++ Virtual.timestamp p ∷ [])
feeds-IsDealt env codec n m ts p w sound d =
    let t = Virtual.timestamp p in
    let i = m.m_next_in in
    let inside = mod-lt (length ts) d.positive in
    let (e, found, runs, share) = d.slots (length ts % n) inside in
    let found' = ap (get_elem? m.m_encoders) d.next_in ∙ found in
    let e' = (Threads.act env codec (Threads.feeds p) e w).0 in
    let keeps = feeds-Keeps env codec p e w sound runs in
    let next : (i + 1) % m.m_nencoder ≡ length (ts ++ t ∷ []) % n =
      ap (λ k. (k + 1) % m.m_nencoder) d.next_in
      ∙ ap (λ k. (length ts % n + 1) % k) d.number
      ∙ mod-add-mod (length ts) n 1
      ∙ ap (λ k. k % n) (sym (length-append ts (t ∷ []))) in
    let from_zero : length ts ≡ 0 + length ts = omega arith in
    let share_of : (j : ℕ)
        → dealt n j 0 ts ++ (if i == j then t ∷ [] else []) ≡ dealt n j 0 (ts ++ t ∷ []) =
      λ j.
        ap (λ k. dealt n j 0 ts ++ (if k == j then t ∷ [] else [])) d.next_in
        ∙ ap (λ k. dealt n j 0 ts ++ (if k % n == j then t ∷ [] else [])) from_zero
        ∙ sym (dealt-append n j 0 t ts) in
    rw (feed_lem env codec m p e e' w found' (feed-returns env codec p e w runs)) (record {
      positive = d.positive;
      number = d.number;
      size = length-set m.m_encoders i e' ∙ d.size;
      next_in = next;
      next_out = d.next_out;
      slots = λ j h. subst (Slot (set m.m_encoders i e') j) (share_of j) (
          set-Slot m.m_encoders i j e e' (t ∷ []) (dealt n (length ts % n) 0 ts) (dealt n j 0 ts)
            (omega (arith, d.next_in, d.size, inside)) keeps share
            (λ eq. ap (λ k. dealt n k 0 ts) (sym d.next_in ∙ eq)) (d.slots j h));
    })

-- A step of one encoder that feeds nothing.
kept-slots :
    (n i : ℕ) (es : List Encoder) (ts : List ℕ) (e e' : Encoder)
    → i < n
    → length es ≡ n
    → Keeps e e' []
    → times e ≡ dealt n i 0 ts
    → ((j : ℕ) → j < n → Slot es j (dealt n j 0 ts))
    → (j : ℕ) → j < n
    → Slot (set es i e') j (dealt n j 0 ts)
kept-slots n i es ts e e' inside size keeps share slots j h =
    subst (Slot (set es i e') j) (if_nothing (i == j) (dealt n j 0 ts)) (
      set-Slot es i j e e' [] (dealt n i 0 ts) (dealt n j 0 ts) (omega (arith, size, inside)) keeps
        share (λ eq. ap (λ k. dealt n k 0 ts) eq) (slots j h))

pub turn-IsDealt :
    (env : Env) (codec : Codec) (n i : ℕ) (a : Threads.Action) (m : MultithreadedEncoder)
    (ts : List ℕ) (w : World)
    → i < n
    → ((e : Encoder) → IsRunning e → Keeps e (Threads.act env codec a e w).0 [])
    → IsDealt n m ts
    → IsDealt n (turn env codec a i m w).0 ts
turn-IsDealt env codec n i a m ts w inside keeps d =
    let (e, found, runs, share) = d.slots i inside in
    let e' = (Threads.act env codec a e w).0 in
    rw (turn_lem env codec a i m e w found) (record {
      positive = d.positive;
      number = d.number;
      size = length-set m.m_encoders i e' ∙ d.size;
      next_in = d.next_in;
      next_out = d.next_out;
      slots = kept-slots n i m.m_encoders ts e e' inside d.size (keeps e runs) share d.slots;
    })

pub reads-IsDealt :
    (env : Env) (codec : Codec) (n size : ℕ) (m : MultithreadedEncoder) (ts : List ℕ) (w : World)
    → IsDealt n m ts
    → IsDealt n (happen env codec (reads size) m w).0 ts
reads-IsDealt env codec n size m ts w d =
    let i = m.m_next_out in
    let (e, found, runs, share) = d.slots i d.next_out in
    let e' = (Single.copy_data e size).2 in
    rw (read_lem env codec m size e w (omega (arith, d.positive, d.number)) found) (record {
      positive = d.positive;
      number = d.number;
      size = length-set m.m_encoders i e' ∙ d.size;
      next_in = d.next_in;
      next_out = subst (λ k. (i + 1) % k < n) (sym d.number) (mod-lt (i + 1) d.positive);
      slots =
          kept-slots n i m.m_encoders ts e e' d.next_out d.size (copies-Keeps e size runs) share
            d.slots;
    })
