-- ===== src/Codec/Parallel.antt =====
-- `cwipc_multithreaded_encoder_impl` (cwipc_codec/src/cwipc_codec.cpp): encoders with threads of their
-- own, which take turns. It is only made for two encoders or more.
pub mod Deal
pub mod Steps
pub mod Order
use cwipc.Common.{
  ℕ, ◌+◌, ◌%◌, Bool, true, false, none, some, List, [], get_elem?, set, replicate, ◌==◌,
  if◌then◌else◌,
}
use cwipc.Common.Int.{pos_part}
use cwipc.World.{Env, M, pure, ◌>>=◌}
use cwipc.Pointcloud.{Pointcloud}
use cwipc.World.{Outcome, done, undefined}
use cwipc.Codec.{EncoderParams, Codec, Encoder, Waits, returns, blocks}
use cwipc.Codec.Single
use cwipc.Codec.Single.{new_encoder_impl}
use cwipc.Codec.Threads
use cwipc.Codec.Threads.{enable_threads, each}

pub record MultithreadedEncoder : Type 0 where
  pub m_encoders : List Encoder
  pub m_nencoder : ℕ
  pub m_next_in : ℕ
  pub m_next_out : ℕ

-- The constructor.
abbrev pub new_multithreaded : Codec → EncoderParams → MultithreadedEncoder
new_multithreaded codec params = record {
  m_encoders =
      replicate (pos_part params.n_parallel) (enable_threads codec (new_encoder_impl params));
  m_nencoder = pos_part params.n_parallel;
  m_next_in = 0;
  m_next_out = 0;
}

unfoldable pub free : Env → Codec → MultithreadedEncoder → M (Waits MultithreadedEncoder)
free env codec m = do
  rv ← each (Threads.free env codec) m.m_encoders
  elim rv [
    | blocks ↦ pure blocks
    | returns es ↦ pure (returns (record m { m_encoders = []; m_nencoder = 0 }))
  ]

unfoldable pub close : Env → Codec → MultithreadedEncoder → M (Waits MultithreadedEncoder)
close env codec m = do
  rv ← each (Threads.close env codec) m.m_encoders
  elim rv [ blocks ↦ pure blocks | returns es ↦ pure (returns (record m { m_encoders = es })) ]

-- The index is out of range after `free`. A number modulo 0 is undefined too.
unfoldable pub feed :
    Env
    → Codec
    → MultithreadedEncoder
    → Pointcloud
    → M (Pointcloud × Outcome (Waits MultithreadedEncoder))
feed env codec m pc = elim (get_elem? m.m_encoders m.m_next_in) [
  | none ↦ pure (pc, undefined)
  | some e ↦ do
    rv ← Single.feed env codec e pc
    elim rv.1 [
      | blocks ↦ pure (rv.0, done blocks)
      | returns e' ↦ pure (
        rv.0,
        done (
            returns (record m {
              m_encoders = set m.m_encoders m.m_next_in e';
              m_next_in = (m.m_next_in + 1) % m.m_nencoder;
            })),
      )
    ]
]

-- The encoder whose result is read next, or the answer where there are no encoders.
ask {ℓ} : {A : Type ℓ} → (Encoder → A) → A → MultithreadedEncoder → Outcome A
ask f default m =
    if m.m_nencoder == 0
    then done default
    else elim (get_elem? m.m_encoders m.m_next_out) [ none ↦ undefined | some e ↦ done (f e) ]

unfoldable pub eof : MultithreadedEncoder → Outcome Bool
unfolding ask
eof m = ask Single.eof true m

unfoldable pub available : MultithreadedEncoder → Outcome Bool
unfolding ask
available m = ask Single.available false m

unfoldable pub at_gop_boundary : MultithreadedEncoder → Outcome Bool
unfolding ask
at_gop_boundary m = ask Single.at_gop_boundary true m

unfoldable pub get_encoded_size : MultithreadedEncoder → Outcome ℕ
unfolding ask
get_encoded_size m = ask Single.get_encoded_size 0 m

-- The next encoder is the one to read from, also if nothing was copied.
unfoldable pub copy_data : MultithreadedEncoder → ℕ → Outcome (Bool × List ℕ × MultithreadedEncoder)
copy_data m buffer_size =
    if m.m_nencoder == 0 then done (false, [], m) else elim (get_elem? m.m_encoders m.m_next_out) [
      | none ↦ undefined
      | some e ↦
          let (copied, bytes, e') = Single.copy_data e buffer_size in
          done (
            copied,
            bytes,
            record m {
              m_encoders = set m.m_encoders m.m_next_out e';
              m_next_out = (m.m_next_out + 1) % m.m_nencoder;
            },
          )
    ]
