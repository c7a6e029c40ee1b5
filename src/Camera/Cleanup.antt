-- ===== src/Camera/Cleanup.antt =====
-- What a failed initialisation of the camera gives back.
use synchronome.Base.{
  ℕ, zero, suc, ◌+◌, ◌≤◌, ◌≡◌, refl, sym, ap, subst, ◌∙◌, true, false, Bool-cases, List, [], ◌∷◌,
  Option, none, some, length, arith, ltb, inl, inr, if_then, if_else, tests, ◌&&◌,
}
use synchronome.Buffer.{Buffer, null, Ret, ok, err, allocate_single_buffer}
use synchronome.Buffer.Arrays.{IsLive}
use synchronome.Buffer.Single.{
  Allocated, allocate_single_buffer-Allocated, live-IsOwned, null-IsOwned,
}
use synchronome.Camera.{
  Replies, Video, Mapping, unset, mapped, Mapped, complete, query_failed, mmap_failed,
  camera_num_buf, close_camera, camera_check_init, granted, camera_request_buffers,
  munmap_camera_buffers, beside, mmap_loop, mmap_end, camera_mmap_buffers, enqueue_loop, after_mmap,
  after_request, camera_init_internal_buffers, after_er, after_wo, after_internal, camera_init_all,
}
use synchronome.Camera.Mappings.{
  AllReleased, AllMapped, munmap_camera_buffers-AllReleased, Looped, mmap_loop-Looped,
}
use synchronome.Camera.Levels.{
  Closable, length-Closable, Settled, given_back, level_2-Settled, level_3-Settled,
}

-- What the driver's buffers come to.
unfoldable pub Internal : Option (Ret × Video) → Type 0
Internal none = ⊥
Internal (some (ok, v)) =
    (v.closes ≡ 0)
    × (v.num_buffers ≡ camera_num_buf)
    × (length v.frame_buffers ≡ v.num_buffers)
    × AllMapped v.frame_buffers
    × (v.wo_buffer.start ≡ null)
    × (v.er_buffer.start ≡ null)
Internal (some (err, v)) =
    (v.closes ≡ 0)
    × Closable v.num_buffers v.frame_buffers
    × (v.wo_buffer.start ≡ null)
    × (v.er_buffer.start ≡ null)

enqueued :
    (r : Replies) (n i : ℕ) (v : Video)
    → Internal (some (ok, v))
    → Internal (
        some (
          enqueue_loop r n
            (i + 1)
            (record v { camera_enqueue_count = v.camera_enqueue_count + 1 })))
    → Internal (some (enqueue_loop r (suc n) i v))
unfolding enqueue_loop Internal
enqueued r n i v (once, three, size, all, wo, er) later =
    elim (Bool-cases (r.qbuf_ok i && r.flags_ok i)) [
      | inl e ↦ subst (λ p. Internal (some p)) (sym (if_then _ _ e)) later
      | inr e ↦
          subst (λ p. Internal (some p)) (sym (if_else _ _ e))
            (once, length-Closable v.num_buffers v.frame_buffers size, wo, er)
    ]

enqueue_loop-Internal :
    (r : Replies) (n i : ℕ) (v : Video)
    → Internal (some (ok, v))
    → Internal (some (enqueue_loop r n i v))
enqueue_loop-Internal r zero i v h = unfold enqueue_loop in h
enqueue_loop-Internal r (suc n) i v h =
    let v' = record v { camera_enqueue_count = v.camera_enqueue_count + 1 } in
    enqueued r n i v h (enqueue_loop-Internal r n (i + 1) v' (unfold Internal in h))

mapped-Internal :
    (r : Replies) (v : Video) (o : Option (Mapped × List Mapping))
    → v.closes ≡ 0
    → v.num_buffers ≡ camera_num_buf
    → v.wo_buffer.start ≡ null
    → v.er_buffer.start ≡ null
    → Looped v.num_buffers o
    → Internal (after_mmap r (mmap_end v o))
unfolding after_mmap mmap_end Looped
mapped-Internal r v none once three wo er h = absurd h
mapped-Internal r v (some (complete, fb)) once three wo er (size, all) =
    enqueue_loop-Internal r v.num_buffers 0 (record v { frame_buffers = fb })
      (unfold Internal in (once, three, size, all, wo, er))
mapped-Internal r v (some (query_failed, fb)) once three wo er size =
    unfold Internal in (once, length-Closable v.num_buffers fb size, wo, er)
mapped-Internal r v (some (mmap_failed, fb)) once three wo er size =
    let (fb', e, h, l) = munmap_camera_buffers-AllReleased fb in
    let e' : munmap_camera_buffers v.num_buffers fb ≡ some fb' =
      subst (λ k. munmap_camera_buffers k fb ≡ some fb') size e in
    let end : mmap_end v (some (mmap_failed, fb)) ≡ some (err, record v { frame_buffers = fb' }) =
      ap (λ o. elim o [ none ↦ none | some v' ↦ some (err, v') ])
        (given_back (record v { frame_buffers = fb }) fb' e') in
    subst (λ o. Internal (after_mmap r o)) (sym end)
      (unfold Internal in (once, length-Closable v.num_buffers fb' (l ∙ size), wo, er))

-- With the camera open and nothing held.
unfoldable pub Opened : Video → Type 0
Opened v =
    (v.closes ≡ 0)
    × (v.num_buffers ≡ 0)
    × (v.frame_buffers ≡ unset ∷ unset ∷ unset ∷ [])
    × (v.wo_buffer.start ≡ null)
    × (v.er_buffer.start ≡ null)

refused-Internal : (v : Video) → Opened v → Internal (some (err, v))
unfolding Opened Internal Closable munmap_camera_buffers
refused-Internal v (once, zero_held, slots, wo, er) = (
  once,
  (
    v.frame_buffers,
    ap (λ n. munmap_camera_buffers n v.frame_buffers) zero_held,
    subst AllReleased (sym slots) (unfold AllReleased in tt),
  ),
  wo,
  er,
)

full_count :
    (r : Replies) (v : Video) (count : ℕ)
    → count ≡ camera_num_buf
    → Opened v
    → Internal (after_request r (ok, record v { num_buffers = count }))
unfolding after_request camera_mmap_buffers Opened
full_count r v count three (once, _, slots, wo, er) =
    let size : length v.frame_buffers ≡ count = ap length slots ∙ sym three in
    mapped-Internal r (record v { num_buffers = count }) (mmap_loop r count 0 v.frame_buffers) once
      three wo er
      (subst (λ n. Looped n (mmap_loop r n 0 v.frame_buffers)) size
        (mmap_loop-Looped r 0 v.frame_buffers))

granted-Internal :
    (r : Replies) (v : Video) (count : Option ℕ)
    → Opened v
    → ((n : ℕ) → count ≡ some n → n ≤ camera_num_buf)
    → Internal (after_request r (granted count v))
unfolding granted after_request
granted-Internal r v none start most = refused-Internal v start
granted-Internal r v (some count) start most = elim (Bool-cases (ltb count camera_num_buf)) [
  | inl few ↦
      subst (λ p. Internal (after_request r p)) (sym (if_then _ _ few)) (refused-Internal v start)
  | inr enough ↦
      subst (λ p. Internal (after_request r p)) (sym (if_else _ _ enough))
        (full_count r v count (omega (tests, enough, most count refl)) start)
]

er-Settled :
    (v : Video) (p : Ret × Buffer)
    → Allocated p
    → v.closes ≡ 0
    → v.num_buffers ≡ camera_num_buf
    → length v.frame_buffers ≡ v.num_buffers
    → AllMapped v.frame_buffers
    → IsLive v.wo_buffer.start
    → Settled (after_er p v)
unfolding after_er Settled
er-Settled v (ok, er) h once three size all wo = (once, three, size, all, wo, h)
er-Settled v (err, er) h once three size all wo =
    level_3-Settled (record v { er_buffer = er }) once
      (length-Closable v.num_buffers v.frame_buffers size) (live-IsOwned v.wo_buffer.start wo)
      (null-IsOwned er.start h)

wo-Settled :
    (r : Replies) (v : Video) (p : Ret × Buffer)
    → Allocated p
    → v.closes ≡ 0
    → v.num_buffers ≡ camera_num_buf
    → length v.frame_buffers ≡ v.num_buffers
    → AllMapped v.frame_buffers
    → v.er_buffer.start ≡ null
    → Settled (after_wo r p v)
unfolding after_wo
wo-Settled r v (err, wo) h once three size all er =
    level_3-Settled (record v { wo_buffer = wo }) once
      (length-Closable v.num_buffers v.frame_buffers size) (null-IsOwned wo.start h)
      (null-IsOwned v.er_buffer.start er)
wo-Settled r v (ok, wo) h once three size all er =
    er-Settled (record v { wo_buffer = wo }) (allocate_single_buffer r.malloc_er v.er_buffer)
      (allocate_single_buffer-Allocated r.malloc_er v.er_buffer) once three size all h

Internal-Settled :
    (r : Replies) (o : Option (Ret × Video)) → Internal o → Settled (after_internal r o)
unfolding after_internal Internal
Internal-Settled r none h = absurd h
Internal-Settled r (some (err, v)) (once, shut, wo, er) =
    level_2-Settled v once shut (inl wo) (inl er)
Internal-Settled r (some (ok, v)) (once, three, size, all, wo, er) =
    wo-Settled r v (allocate_single_buffer r.malloc_wo v.wo_buffer)
      (allocate_single_buffer-Allocated r.malloc_wo v.wo_buffer) once three size all er

unchecked : (v : Video) → Opened v → Settled (some (err, close_camera v))
unfolding Opened Settled close_camera
unchecked v (once, _, slots, wo, er) = (
  ap (λ n. n + 1) once ∙ omega arith,
  subst AllReleased (sym slots) (unfold AllReleased in tt),
  inl wo,
  inl er,
)

-- From a camera just opened, with nothing mapped or allocated, and a driver that grants at most the
-- three buffers asked for, the initialisation makes no fault, whatever replies fail: it succeeds
-- with the three buffers mapped and both image buffers allocated and the camera open, or it fails
-- with the camera closed exactly once, no mapping left and both image buffers null or freed.
pub camera_init_all-Settled :
    (r : Replies) (v : Video)
    → Opened v
    → ((n : ℕ) → r.reqbufs ≡ some n → n ≤ camera_num_buf)
    → Settled (camera_init_all r v)
unfolding camera_init_all camera_init_internal_buffers camera_request_buffers
camera_init_all-Settled r v start most = elim (Bool-cases (camera_check_init r)) [
  | inl fine ↦ subst Settled (sym (if_then _ _ fine)) (
      Internal-Settled r (after_request r (granted r.reqbufs v))
        (granted-Internal r v r.reqbufs start most))
  | inr bad ↦ subst Settled (sym (if_else _ _ bad)) (unchecked v start)
]

mmap_past :
    (r : Replies) (n i : ℕ) (m : Mapping) (fb : List Mapping)
    → r.querybuf_ok i ≡ true
    → r.mmap_ok i ≡ true
    → mmap_loop r n (i + 1) fb ≡ none
    → mmap_loop r (suc n) i (m ∷ fb) ≡ none
unfolding mmap_loop beside
mmap_past r n i m fb q e later = if_then _ _ q ∙ if_then _ _ e ∙ ap (beside mapped) later

four_asked :
    (r : Replies) (more : ℕ) (a b c : Mapping)
    → ((i : ℕ) → r.querybuf_ok i ≡ true)
    → ((i : ℕ) → r.mmap_ok i ≡ true)
    → mmap_loop r (suc (suc (suc (suc more)))) 0 (a ∷ b ∷ c ∷ []) ≡ none
four_asked r more a b c q e = mmap_past r (suc (suc (suc more))) 0 a (b ∷ c ∷ []) (q 0) (e 0) (
    mmap_past r (suc (suc more)) (0 + 1) b (c ∷ []) (q (0 + 1)) (e (0 + 1)) (
      mmap_past r (suc more) (0 + 1 + 1) c [] (q (0 + 1 + 1)) (e (0 + 1 + 1))
        (unfold mmap_loop in if_then _ _ (q (0 + 1 + 1 + 1)))))

over :
    (r : Replies) (v : Video)
    → mmap_loop r v.num_buffers 0 v.frame_buffers ≡ none
    → after_internal r (after_request r (ok, v)) ≡ none
unfolding after_internal after_request camera_mmap_buffers mmap_end after_mmap
over r v e = ap (λ o. after_internal r (after_mmap r (mmap_end v o))) e

-- A driver that grants more than three buffers and maps each of them makes the initialisation write
-- past the end of `frame_buffers`.
pub camera_init_all_overflow :
    (r : Replies) (v : Video) (more : ℕ)
    → Opened v
    → camera_check_init r ≡ true
    → r.reqbufs ≡ some (4 + more)
    → ((i : ℕ) → r.querybuf_ok i ≡ true)
    → ((i : ℕ) → r.mmap_ok i ≡ true)
    → camera_init_all r v ≡ none
unfolding camera_init_all camera_init_internal_buffers camera_request_buffers granted Opened
camera_init_all_overflow r v more (_, _, slots, _, _) fine count query mapping =
    let asked : 4 + more ≡ suc (suc (suc (suc more))) = omega arith in
    let enough : ltb (4 + more) camera_num_buf ≡ false = ground arith in
    let past : mmap_loop r (4 + more) 0 v.frame_buffers ≡ none =
      (λ i. mmap_loop r (asked i) 0 (slots i)) ∙ four_asked r more _ _ _ query mapping in
    if_then _ _ fine
    ∙ ap (λ o. after_internal r (after_request r (granted o v))) count
    ∙ ap (λ p. after_internal r (after_request r p)) (if_else _ _ enough)
    ∙ over r (record v { num_buffers = 4 + more }) past
