-- ===== src/Pipeline/System/Numbers.antt =====
-- The ids of the frames that pass from the one thread to the other.
use synchronome.Base.{
  ℕ, zero, suc, ◌≡◌, refl, sym, ap, ap₂, subst, ◌∙◌, false, List, [], ◌∷◌, ◌++◌, some, get_elem?,
  set,
}
use synchronome.Buffer.{Buffer}
use synchronome.Queue.{Mqueue}
use synchronome.Pipeline.Outcome.{Every-next, Always-next}
use synchronome.Pipeline.Frame.{FrameState}
use synchronome.Pipeline.Frame.Effects.{
  Same, Wrote, Handed, Refused, opening-Same, requeue-Same, scan-Wrote,
}
use synchronome.Pipeline.Processing.{ProcState}
use synchronome.Pipeline.Processing.Effects.{
  Kept, Judged, examine-Judged, after_inner-Kept, enter-Kept,
}
use synchronome.Pipeline.System.{
  FrameAt, waiting, grabbed, copied, sending, handed, frame_gone, ProcAt, idle, receiving, received,
  holding, judged, proc_gone, Label, System, frame_moves, proc_moves, stored, Step, grab, copy,
  store, hand, finish, stop, begin, end, await, receive, take, take_none, judge, settle, halt,
}
use synchronome.Pipeline.System.InFlight.{InRing, send_on-Handed, sending_filled}
use synchronome.Base.Int.{ℤ, pos, ◌+ℤ◌}
use synchronome.Pipeline.System.Channel.{put, Run, opens, moves}
use synchronome.Pipeline.System.Delivery.{IsFresh, Run-InOrder, Run-InRing}

-- Frames with successive ids from `a` on, up to just before `m`.
abbrev pub Numbered : ℤ → List Buffer → ℤ → Type 0
Numbered a [] m = a ≡ m
Numbered a (b ∷ bs) m = (b.id ≡ a) × Numbered (a +ℤ pos 1) bs m

Numbered-append :
    (a m : ℤ) (bs : List Buffer) (b : Buffer)
    → Numbered a bs m
    → b.id ≡ m
    → Numbered a (bs ++ (b ∷ [])) (m +ℤ pos 1)
Numbered-append a m [] b h e = (e ∙ sym h, ap (λ x. x +ℤ pos 1) h)
Numbered-append a m (c ∷ bs) b h e = (h.0, Numbered-append (a +ℤ pos 1) m bs b h.1 e)

Numbered-prefix :
    (a m : ℤ) (bs cs : List Buffer) → Numbered a (bs ++ cs) m → (n : ℤ) × Numbered a bs n
Numbered-prefix a m [] cs h = (a, refl)
Numbered-prefix a m (b ∷ bs) cs h =
    let (n, k) = Numbered-prefix (a +ℤ pos 1) m bs cs h.1 in (n, (h.0, k))

get_elem?-set_same :
    (l : List Buffer) (n : ℕ) (v b : Buffer) → get_elem? (set l n v) n ≡ some b → b ≡ v
get_elem?-set_same [] n v b e = cc
get_elem?-set_same (x ∷ l) zero v b e = cc
get_elem?-set_same (x ∷ l) (suc n) v b e = get_elem?-set_same l n v b e

module _ (os : Mqueue) where
  -- `m` is the id of the next frame to be handed over.
  abbrev Pending : FrameAt → FrameState os → ℤ → Type 0
  Pending (copied r) f m =
      (f.frame_id ≡ m +ℤ pos 1)
      × ((b : Buffer) → get_elem? f.scan_buffer f.scan_buffer_index ≡ some b → b.id ≡ m)
  Pending (sending r) f m =
      (f.frame_id ≡ m +ℤ pos 1)
      × ((b : Buffer) → get_elem? f.scan_buffer f.scan_buffer_index ≡ some b → b.id ≡ m)
  Pending waiting f m = f.frame_id ≡ m
  Pending (grabbed r i) f m = f.frame_id ≡ m
  Pending (handed r) f m = f.frame_id ≡ m
  Pending frame_gone f m = Unit

  record IsNumbered (first : ℤ) (ins : List Buffer) (s : System os) : Type 0 where
    pub next_id : ℤ
    pub numbered : Numbered first ins next_id
    pub pending : Pending s.frame_at s.frame next_id

  -- Whichever part ends the frame thread, no more frames come.
  frame-IsNumbered :
      (pc : FrameAt) (f : FrameState os) (first m : ℤ) (ins : List Buffer) (s : System os)
      → Numbered first ins m
      → Pending pc f m
      → IsNumbered first ins (frame_moves os pc f s)
  unfolding frame_moves
  frame-IsNumbered pc f first m ins s h p = record { next_id = m; numbered = h; pending = p }

  Pending-ring :
      (pc : FrameAt) (f g : FrameState os) (m : ℤ)
      → g.scan_buffer ≡ f.scan_buffer
      → g.scan_buffer_index ≡ f.scan_buffer_index
      → g.frame_id ≡ f.frame_id
      → Pending pc f m
      → Pending pc g m
  Pending-ring (copied r) f g m e n i p =
      (i ∙ p.0, λ b h. p.1 b (ap₂ get_elem? (sym e) (sym n) ∙ h))
  Pending-ring (sending r) f g m e n i p =
      (i ∙ p.0, λ b h. p.1 b (ap₂ get_elem? (sym e) (sym n) ∙ h))
  Pending-ring waiting f g m e n i p = i ∙ p
  Pending-ring (grabbed r j) f g m e n i p = i ∙ p
  Pending-ring (handed r) f g m e n i p = i ∙ p
  Pending-ring frame_gone f g m e n i p = tt

  proc-IsNumbered :
      (pc : ProcAt) (p : ProcState os) (first : ℤ) (ins : List Buffer) (s : System os)
      → p.scan_buffer ≡ s.proc.scan_buffer
      → InRing os s
      → IsNumbered first ins s
      → IsNumbered first ins (proc_moves os pc p s)
  unfolding proc_moves
  proc-IsNumbered pc p first ins s e r v = record {
    next_id = v.next_id;
    numbered = v.numbered;
    pending = Pending-ring s.frame_at s.frame _ v.next_id (e ∙ r.ring) refl refl v.pending;
  }

  -- What is pending, from where the frame thread stands.
  Pending-at :
      (pc : FrameAt) (first : ℤ) (ins : List Buffer) (s : System os)
      → s.frame_at ≡ pc
      → (v : IsNumbered first ins s) → Pending pc s.frame v.next_id
  Pending-at pc first ins s e v = subst (λ at. Pending at s.frame v.next_id) e v.pending

  step-IsNumbered :
      (first : ℤ) (ins : List Buffer) (s t : System os) (l : Label)
      → Step os s l t
      → InRing os s
      → IsNumbered first ins s
      → IsNumbered first (put l ins) t
  step-IsNumbered first ins s _ _ (grab {i} {f} r e run h) v w =
      let m =
        Always-next (λ x. Same os s.frame x.1) (Same os s.frame) _ (i, f)
          (opening-Same os r s.frame) h in
      frame-IsNumbered (grabbed r i) f first w.next_id ins s w.numbered
        (m.ids ∙ Pending-at waiting first ins s e w)
  step-IsNumbered first ins s _ _ (copy {f} r i e h) v w =
      let m = Every-next (Wrote os s.frame) _ f (scan-Wrote os i r.timestamp s.frame) h in
      let now = Pending-at (grabbed r i) first ins s e w in
      frame-IsNumbered (copied r) f first w.next_id ins s w.numbered (
        m.ids ∙ ap (λ x. x +ℤ pos 1) now,
        λ b g.
            ap (λ x. x.id)
              (get_elem?-set_same s.frame.scan_buffer s.frame.scan_buffer_index m.target b
                (ap₂ get_elem? (sym m.ring) (sym m.index) ∙ g))
            ∙ m.named
            ∙ now,
      )
  step-IsNumbered first ins s _ _ (store r n e room) v w =
      frame-IsNumbered (sending r) (stored os n s.frame) first w.next_id ins s w.numbered
        (unfold stored in Pending-at (copied r) first ins s e w)
  step-IsNumbered first ins s _ _ (hand {f} {b} r e g h) v w =
      let filled = sending_filled os r s e v in
      let m =
        Always-next (Handed os s.frame) (Refused os s.frame) _ f (send_on-Handed os s.frame filled)
          h in
      let (id, named) = Pending-at (sending r) first ins s e w in
      frame-IsNumbered (handed r) f first (w.next_id +ℤ pos 1) (ins ++ (b ∷ [])) s
        (Numbered-append first w.next_id ins b w.numbered
          (named b (subst (λ n. get_elem? s.frame.scan_buffer n ≡ some b) filled g)))
        (m.ids ∙ id)
  step-IsNumbered first ins s _ _ (finish {f} r e h) v w =
      let m =
        Always-next (Same os s.frame) (Same os s.frame) _ f (requeue-Same os r.qbuf_ok s.frame) h in
      frame-IsNumbered waiting f first w.next_id ins s w.numbered
        (m.ids ∙ Pending-at (handed r) first ins s e w)
  step-IsNumbered first ins s _ _ (stop {f} h) v w =
      frame-IsNumbered frame_gone f first w.next_id ins s w.numbered tt
  step-IsNumbered first ins s _ _ (begin {p} c e o run h) v w =
      proc-IsNumbered idle p first ins s
        (Every-next (Kept os s.proc) _ p (enter-Kept os c s.proc) h).ring v w
  step-IsNumbered first ins s _ _ (end e o run) v w =
      proc-IsNumbered proc_gone s.proc first ins s refl v w
  step-IsNumbered first ins s _ _ (await n e o) v w =
      proc-IsNumbered receiving (record s.proc { frame_q = record s.proc.frame_q { count = n } })
        first ins s refl v w
  step-IsNumbered first ins s _ _ (receive x mq e h) v w =
      proc-IsNumbered (received x)
        (record s.proc { frame_q = record s.proc.frame_q { q = mq; b = x } }) first ins s refl v w
  step-IsNumbered first ins s _ _ (take {b} x e g) v w =
      proc-IsNumbered (holding s.proc.frame_q.b) s.proc first ins s refl v w
  step-IsNumbered first ins s _ _ (take_none reply mq e h m) v w =
      proc-IsNumbered proc_gone
        (record s.proc { frame_q = record s.proc.frame_q { q = mq }; running = false }) first ins s
        refl v w
  step-IsNumbered first ins s _ _ (judge {turn} {p} current e h) v w =
      proc-IsNumbered (judged turn) p first ins s
        (Every-next (λ x. Judged os current s.proc x.1) _ (turn, p)
          (examine-Judged os s.proc.last_buffer_index current s.proc) h).ring
        v w
  step-IsNumbered first ins s _ _ (settle {p} c turn e h) v w =
      proc-IsNumbered idle p first ins s
        (Every-next (Kept os s.proc) _ p (after_inner-Kept os c turn s.proc) h).ring v w
  step-IsNumbered first ins s _ _ halt v w =
      frame-IsNumbered s.frame_at (record s.frame { running = false }) first w.next_id ins s
        w.numbered
        (Pending-ring s.frame_at s.frame (record s.frame { running = false }) w.next_id refl refl
          refl w.pending)

  Run-IsNumbered :
      (s t : System os) (ins outs : List Buffer)
      → IsFresh os s
      → s.frame_at ≡ waiting
      → Run os s ins outs t
      → IsNumbered s.frame.frame_id ins t
  Run-IsNumbered s _ _ _ v e opens = record {
    next_id = s.frame.frame_id;
    numbered = refl;
    pending = subst (λ at. Pending at s.frame s.frame.frame_id) (sym e) refl;
  }
  Run-IsNumbered s _ _ _ v e (moves {ins} {outs} {t} {u} {l} r h k a) =
      step-IsNumbered s.frame.frame_id ins t u l h (Run-InRing os s t ins outs v r)
        (Run-IsNumbered s t ins outs v e r)

  -- From the start, in whatever order the two threads step, as long as they stay apart on the receive
  -- buffer of their queue (no store of the frame thread falls between a receive of the processing
  -- thread and its read of the buffer, and no receive between a store and its send) and fewer than 88
  -- frames wait at each copy, the frames that the processing thread takes carry successive ids from the frame
  -- thread's first one on: none is lost and none comes twice.
  pub Run-Numbered :
      (s t : System os) (ins outs : List Buffer)
      → IsFresh os s
      → s.frame_at ≡ waiting
      → Run os s ins outs t
      → (m : ℤ) × Numbered s.frame.frame_id outs m
  Run-Numbered s t ins outs v e r =
      let n = Run-IsNumbered s t ins outs v e r in
      let o = Run-InOrder os s t ins outs v r in
      Numbered-prefix s.frame.frame_id n.next_id outs o.flight
        (subst (λ l. Numbered s.frame.frame_id l n.next_id) o.sent n.numbered)
