-- ===== src/Capture/RealSense/Destroying.antt =====
-- What `~RS2BaseCapture` does to an object that the consumer owns.
use cwipc.Common.{ℕ, ◌≡◌, refl, ap, ◌∙◌, Bool, true, false, none, some, [], ◌∷◌, if◌then◌else◌}
use cwipc.Capture.{
  Answer, waiting, checking, ended, idle, taking, asking_again, destroying, gone, turn, proceed,
  call_destroy, holds_lock, with_merged,
}
use cwipc.Capture.RealSense.{
  Capture, at, thread_turn, control, request_new, take, stop_cameras, after_join, free_merged,
  consumer_turn, begin, step, run,
}

module _ (s : Capture) where
  abbrev taken : Capture
  taken = record (take s) { call = asking_again }

  abbrev requested : Capture
  requested = record (request_new taken) { call = idle }

  abbrev stopped : Capture
  stopped = record (stop_cameras requested) { call = destroying }

  takes :
      s.control_thread ≡ some waiting → s.is_fresh ≡ true → s.call ≡ taking → step proceed s ≡ taken
  unfolding step consumer_turn
  takes e f c =
      ap (λ c. consumer_turn c s) c
      ∙ ap (λ b. if b then s else (if s.is_fresh then taken else s)) (ap holds_lock e)
      ∙ ap (λ b. if b then taken else s) f

  requests : s.control_thread ≡ some waiting → step proceed taken ≡ requested
  unfolding step consumer_turn
  requests e = ap (λ b. if b then taken else requested) (ap holds_lock e)

  stops : step call_destroy requested ≡ stopped
  unfolding step begin
  stops = refl

  checks :
      (a : Answer) → s.control_thread ≡ some waiting → step (turn a) stopped ≡ at checking stopped
  unfolding step control thread_turn
  checks a e = ap (λ t. elim t [ none ↦ stopped | some p ↦ thread_turn a p stopped ]) e

  ends :
      (b : Answer)
      → step (turn b) (at checking stopped)
        ≡ at ended (record stopped { is_eof = if b.end_of_stream_reached then true else s.is_eof })
  unfolding step control thread_turn
  ends b = by_answer b.end_of_stream_reached
    where
      by_answer :
          (eos : Bool)
          → (if eos
              then at ended (record (at checking stopped) { is_eof = true; stopped = true })
              else at ended (at checking stopped))
            ≡ at ended (record stopped { is_eof = if eos then true else s.is_eof })
      by_answer true = refl
      by_answer false = refl

  after : (b : Answer) → Capture
  after b =
      record (free_merged (
        after_join
          (record stopped { is_eof = if b.end_of_stream_reached then true else s.is_eof }))) {
            call = gone;
          }

  destroys :
      (b : Answer)
      → step proceed (
          at ended (record stopped { is_eof = if b.end_of_stream_reached then true else s.is_eof }))
        ≡ after b
  unfolding step consumer_turn after
  destroys b = refl

  reaches :
      (a b : Answer)
      → s.control_thread ≡ some waiting
      → s.is_fresh ≡ true
      → s.call ≡ taking
      → run (proceed ∷ proceed ∷ call_destroy ∷ turn a ∷ turn b ∷ proceed ∷ []) s ≡ after b
  unfolding run
  reaches a b e f c =
      ap (run (proceed ∷ call_destroy ∷ turn a ∷ turn b ∷ proceed ∷ [])) (takes e f c)
      ∙ ap (run (call_destroy ∷ turn a ∷ turn b ∷ proceed ∷ [])) (requests e)
      ∙ ap (run (turn a ∷ turn b ∷ proceed ∷ [])) stops
      ∙ ap (run (turn b ∷ proceed ∷ [])) (checks a e)
      ∙ ap (run (proceed ∷ [])) (ends b)
      ∙ destroys b

-- If get_pointcloud of a RealSense capturer waits while its thread waits too and a point cloud is
-- fresh, and the capturer is destroyed right after the call returns, the point cloud is both
-- delivered and freed.
pub destroy_frees_delivered :
    (s : Capture) (pc : ℕ) (a b : Answer)
    → s.control_thread ≡ some waiting
    → s.merged_pc ≡ some pc
    → s.is_fresh ≡ true
    → s.call ≡ taking
    → let s' : Capture =
        run (proceed ∷ proceed ∷ call_destroy ∷ turn a ∷ turn b ∷ proceed ∷ []) s in
      (s'.delivered ≡ pc ∷ s.delivered) × (s'.freed ≡ pc ∷ s.freed)
unfolding after
destroy_frees_delivered s pc a b e m f c =
    let r = reaches s a b e f c in
    (
      ap (λ t. t.delivered) r ∙ ap (λ m. with_merged m s.delivered) m,
      ap (λ t. t.freed) r ∙ ap (λ m. with_merged m s.freed) m,
    )
