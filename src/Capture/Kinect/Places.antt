-- ===== src/Capture/Kinect/Places.antt =====
-- Where the point clouds of `K4ABaseCapture` are, and how one step moves them.
use cwipc.Common.{
  ℕ, suc, ◌+◌, ◌≡◌, refl, sym, ap, ◌∙◌, arith, Bool, true, false, not, Option, none, some, List,
  ◌==◌, if◌then◌else◌,
}
use cwipc.Capture.{
  Answer, Place, testing, waiting, checking, grabbing, saving, processing, locking, locked, merging,
  publishing, ended, Call, idle, asking_available, looking, asking, taking, asking_again, joining,
  destroying, gone, Devices, Event, turn, proceed, call_start, call_available, call_get, call_stop,
  call_destroy, has_thread, holds_lock, count, in_merged, in_thread, with_merged,
}
use cwipc.Capture.Kinect.{
  Capture, free_pc, free_merged, at, thread_turn, is_playing, take, after_join, unload_cameras,
  start, joined, consumer_turn, begin,
}

-- How often an object was delivered, was freed, or is in the capturer.
unfoldable pub places : ℕ → Capture → ℕ
places x s =
    count x s.delivered + count x s.freed + in_merged x s.merged_pc + in_thread x s.control_thread

abbrev pub same : ℕ → ℕ → ℕ
same x y = if x == y then 1 else 0

-- One step: so many occurrences of an object are lost, or a new object is made.
pub data Change (x : ℕ) (s s' : Capture) (lost : ℕ) : Type 0 where
  moved : s'.created ≡ s.created → places x s' + lost ≡ places x s → Change x s s' lost
  made :
      s'.created ≡ suc s.created → places x s' ≡ places x s + same x s.created → Change x s s' lost

-- The occurrences that the next turn of the thread overwrites.
unfoldable pub overwritten : ℕ → Option Place → Capture → ℕ
overwritten x (some (locking pc)) s = if s.is_fresh then 0 else in_merged x s.merged_pc
overwritten x _ s = 0

module _ (x : ℕ) where
  pub Change-if :
      (b : Bool) (s s₁ s₂ : Capture) (l : ℕ)
      → Change x s s₁ l
      → Change x s s₂ l
      → Change x s (if b then s₁ else s₂) l
  Change-if true s s₁ s₂ l h₁ h₂ = h₁
  Change-if false s s₁ s₂ l h₁ h₂ = h₂

  pub same_place : (s : Capture) → Change x s s 0
  same_place s = moved refl (omega arith)

  in_thread-if :
      (b : Bool) (p q : Place)
      → in_thread x (some p) ≡ 0
      → in_thread x (some q) ≡ 0
      → in_thread x (some (if b then p else q)) ≡ 0
  in_thread-if true p q h₁ h₂ = h₁
  in_thread-if false p q h₁ h₂ = h₂

  at-Change :
      (p : Place) (s : Capture)
      → in_thread x (some p) ≡ in_thread x s.control_thread
      → Change x s (at p s) 0
  unfolding places
  at-Change p s e = moved refl (omega arith)

  -- The thread frees its object and ends.
  free-Change :
      (pc : ℕ) (s : Capture)
      → in_thread x s.control_thread ≡ same x pc
      → Change x s (at ended (free_pc pc s)) 0
  unfolding places count
  free-Change pc s e = moved refl (omega arith)

  count-with_merged :
      (m : Option ℕ) (ids : List ℕ) → count x (with_merged m ids) ≡ in_merged x m + count x ids
  unfolding count
  count-with_merged none ids = omega arith
  count-with_merged (some pc) ids = refl

  locking-Change :
      (pc : ℕ) (s : Capture) (fresh : Bool)
      → in_thread x s.control_thread ≡ same x pc
      → Change x s
          (at locked (record (if fresh then free_merged s else s) { merged_pc = some pc }))
          (if fresh then 0 else in_merged x s.merged_pc)
  unfolding places count
  locking-Change pc s false e = moved refl (omega arith)
  locking-Change pc s true e = moved refl (omega (arith, count-with_merged s.merged_pc s.freed))

  ending :
      (s : Capture)
      → in_thread x s.control_thread ≡ 0
      → Change x s (at ended (record s { is_eof = true; stopped = true })) 0
  unfolding places
  ending s e = moved refl (omega arith)

  publishing-Change :
      (s : Capture)
      → in_thread x s.control_thread ≡ 0
      → Change x s (at testing (record s { is_fresh = true; want_new = false })) 0
  unfolding places
  publishing-Change s e = moved refl (omega arith)

  making :
      (s : Capture)
      → in_thread x s.control_thread ≡ 0
      → Change x s (at (saving s.created) (record s { created = suc s.created })) 0
  unfolding places
  making s e = made refl (omega arith)

  pub thread_turn-Change :
      (a : Answer) (p : Place) (s : Capture)
      → s.control_thread ≡ some p
      → Change x s (thread_turn a p s) (overwritten x (some p) s)
  unfolding thread_turn overwritten
  thread_turn-Change a testing s e =
      at-Change _ s (in_thread-if s.stopped ended waiting refl refl ∙ sym (ap (in_thread x) e))
  thread_turn-Change a waiting s e =
      at-Change _ s (in_thread-if s.want_new checking waiting refl refl ∙ sym (ap (in_thread x) e))
  thread_turn-Change a checking s e =
      Change-if a.end_of_stream_reached s _ _ 0 (ending s (ap (in_thread x) e))
        (at-Change _ s (in_thread-if s.stopped ended grabbing refl refl ∙ sym (ap (in_thread x) e)))
  thread_turn-Change a grabbing s e =
      Change-if (not a.all_captures_ok) s _ _ 0 (at-Change testing s (sym (ap (in_thread x) e))) (
        Change-if s.stopped s _ _ 0 (at-Change ended s (sym (ap (in_thread x) e)))
          (making s (ap (in_thread x) e)))
  thread_turn-Change a (saving pc) s e =
      Change-if s.stopped s _ _ 0 (free-Change pc s (ap (in_thread x) e))
        (at-Change (processing pc) s (sym (ap (in_thread x) e)))
  thread_turn-Change a (processing pc) s e =
      Change-if s.stopped s _ _ 0 (free-Change pc s (ap (in_thread x) e))
        (at-Change (locking pc) s (sym (ap (in_thread x) e)))
  thread_turn-Change a (locking pc) s e = locking-Change pc s s.is_fresh (ap (in_thread x) e)
  thread_turn-Change a locked s e =
      at-Change _ s (in_thread-if s.stopped ended merging refl refl ∙ sym (ap (in_thread x) e))
  thread_turn-Change a merging s e =
      at-Change _ s (in_thread-if s.stopped ended publishing refl refl ∙ sym (ap (in_thread x) e))
  thread_turn-Change a publishing s e = publishing-Change s (ap (in_thread x) e)
  thread_turn-Change a ended s e = same_place s

  -- A branch of which the condition matters.
  Change-branch :
      (b : Bool) (s s₁ s₂ : Capture) (l : ℕ)
      → (b ≡ true → Change x s s₁ l)
      → (b ≡ false → Change x s s₂ l)
      → Change x s (if b then s₁ else s₂) l
  Change-branch true s s₁ s₂ l h₁ h₂ = h₁ refl
  Change-branch false s s₁ s₂ l h₁ h₂ = h₂ refl

  in_thread-joined : (t : Option Place) → joined t ≡ true → in_thread x t ≡ 0
  in_thread-joined none h = refl
  in_thread-joined (some testing) h = refl
  in_thread-joined (some waiting) h = refl
  in_thread-joined (some checking) h = refl
  in_thread-joined (some grabbing) h = refl
  in_thread-joined (some (saving pc)) h = absurd (ground arith)
  in_thread-joined (some (processing pc)) h = absurd (ground arith)
  in_thread-joined (some (locking pc)) h = absurd (ground arith)
  in_thread-joined (some locked) h = refl
  in_thread-joined (some merging) h = refl
  in_thread-joined (some publishing) h = refl
  in_thread-joined (some ended) h = refl

  in_thread-no_thread : (t : Option Place) → has_thread t ≡ false → in_thread x t ≡ 0
  in_thread-no_thread none h = refl
  in_thread-no_thread (some p) h = absurd (ground arith)

  -- Steps that touch neither the objects nor the thread.
  unmoved :
      (s s' : Capture)
      → s'.created ≡ s.created
      → s'.delivered ≡ s.delivered
      → s'.freed ≡ s.freed
      → s'.merged_pc ≡ s.merged_pc
      → in_thread x s'.control_thread ≡ in_thread x s.control_thread
      → Change x s s' 0
  unfolding places
  unmoved s s' c d f m t =
      moved c (omega (arith, ap (count x) d, ap (count x) f, ap (in_merged x) m))

  take-Change : (s : Capture) → Change x s (record (take s) { call = asking_again }) 0
  unfolding places
  take-Change s = moved refl (omega (arith, count-with_merged s.merged_pc s.delivered))

  free_merged-Change : (s : Capture) → Change x s (record (free_merged s) { call = gone }) 0
  unfolding places
  free_merged-Change s = moved refl (omega (arith, count-with_merged s.merged_pc s.freed))

  freed_after_join :
      (s : Capture)
      → in_thread x s.control_thread ≡ 0
      → Change x s (record (free_merged (after_join s)) { call = gone }) 0
  unfolding places
  freed_after_join s e = moved refl (omega (arith, count-with_merged s.merged_pc s.freed))

  pub consumer_turn-Change : (c : Call) (s : Capture) → Change x s (consumer_turn c s) 0
  unfolding consumer_turn
  consumer_turn-Change idle s = same_place s
  consumer_turn-Change asking_available s =
      Change-if (holds_lock s.control_thread) s _ _ 0 (same_place s)
        (unmoved s _ refl refl refl refl refl)
  consumer_turn-Change looking s =
      Change-if (holds_lock s.control_thread) s _ _ 0 (same_place s)
        (unmoved s _ refl refl refl refl refl)
  consumer_turn-Change asking s =
      Change-if (holds_lock s.control_thread) s _ _ 0 (same_place s)
        (unmoved s _ refl refl refl refl refl)
  consumer_turn-Change taking s =
      Change-if (holds_lock s.control_thread) s _ _ 0 (same_place s)
        (Change-if s.is_fresh s _ _ 0 (take-Change s) (same_place s))
  consumer_turn-Change asking_again s =
      Change-if (holds_lock s.control_thread) s _ _ 0 (same_place s)
        (unmoved s _ refl refl refl refl refl)
  consumer_turn-Change joining s =
      Change-branch (joined s.control_thread) s _ _ 0
        (λ h. unmoved s _ refl refl refl refl (sym (in_thread-joined s.control_thread h)))
        (λ h. same_place s)
  consumer_turn-Change destroying s = Change-if (s.cameras == 0) s _ _ 0 (free_merged-Change s) (
      Change-branch (joined s.control_thread) s _ _ 0
        (λ h. freed_after_join s (in_thread-joined s.control_thread h)) (λ h. same_place s))
  consumer_turn-Change gone s = same_place s

  unload-Change :
      (n : ℕ) (s : Capture)
      → has_thread s.control_thread ≡ false
      → Change x s (unload_cameras (record s { cameras = n })) 0
  unload-Change n s h =
      Change-if (n == 0) s _ _ 0 (unmoved s _ refl refl refl refl refl)
        (unmoved s _ refl refl refl refl (sym (in_thread-no_thread s.control_thread h)))

  start-Change : (d : Devices) (s : Capture) → Change x s (start d s) 0
  unfolding start
  start-Change d s = Change-if (not s.is_initialized) s _ _ 0 (same_place s) (
      Change-branch (has_thread s.control_thread) s _ _ 0 (λ h. same_place s)
        (λ h. Change-if (not d.hardware_ok) s _ _ 0 (same_place s) (
          Change-if (not d.created_ok) s _ _ 0 (unload-Change d.camera_count s h) (
            Change-if (not d.connected_ok) s _ _ 0 (unload-Change d.camera_count s h)
              (unmoved s _ refl refl refl refl (sym (in_thread-no_thread s.control_thread h)))))))

  pub begin-Change : (e : Event) (s : Capture) → Change x s (begin e s) 0
  unfolding begin
  begin-Change (turn a) s = same_place s
  begin-Change proceed s = same_place s
  begin-Change (call_start d) s = start-Change d s
  begin-Change call_available s =
      Change-if (is_playing s) s _ _ 0 (unmoved s _ refl refl refl refl refl) (same_place s)
  begin-Change call_get s =
      Change-if (is_playing s) s _ _ 0 (unmoved s _ refl refl refl refl refl) (same_place s)
  begin-Change call_stop s =
      Change-if (s.cameras == 0) s _ _ 0 (same_place s) (unmoved s _ refl refl refl refl refl)
  begin-Change call_destroy s =
      Change-if (s.cameras == 0) s _ _ 0 (unmoved s _ refl refl refl refl refl)
        (unmoved s _ refl refl refl refl refl)
