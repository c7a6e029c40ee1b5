-- ===== src/Camera/Mappings.antt =====
-- The loops over the mapped buffers.
use synchronome.Base.{
  ℕ, suc, ◌+◌, ◌≡◌, refl, sym, ap, subst, ◌∙◌, Bool-cases, List, [], ◌∷◌, Option, none, some,
  length, inl, inr, if_then, if_else,
}
use synchronome.Camera.{
  Replies, Mapping, unset, mapped, map_failed, unmapped, Mapped, complete, query_failed,
  mmap_failed, munmap, munmap_camera_buffers, beside, mmap_loop,
}

-- No entry is a mapping.
unfoldable pub AllReleased : List Mapping → Type 0
AllReleased [] = Unit
AllReleased (mapped ∷ fb) = ⊥
AllReleased (unset ∷ fb) = AllReleased fb
AllReleased (map_failed ∷ fb) = AllReleased fb
AllReleased (unmapped ∷ fb) = AllReleased fb

unfoldable pub AllMapped : List Mapping → Type 0
AllMapped [] = Unit
AllMapped (mapped ∷ fb) = AllMapped fb
AllMapped (_ ∷ fb) = ⊥

-- Unmapping as many entries as there are leaves no mapping.
pub munmap_camera_buffers-AllReleased :
    (fb : List Mapping)
    → (fb' : List Mapping) × (munmap_camera_buffers (length fb) fb ≡ some fb')
      × AllReleased fb'
      × (length fb' ≡ length fb)
unfolding munmap_camera_buffers munmap AllReleased
munmap_camera_buffers-AllReleased [] = ([], refl, tt, refl)
munmap_camera_buffers-AllReleased (m ∷ fb) =
    let (fb', e, h, l) = munmap_camera_buffers-AllReleased fb in
    (
      munmap m ∷ fb',
      ap (λ o. elim o [ none ↦ none | some fb' ↦ some (munmap m ∷ fb') ]) e,
      shut m fb' h,
      ap suc l,
    )
  where
    shut : (m : Mapping) (fb' : List Mapping) → AllReleased fb' → AllReleased (munmap m ∷ fb')
    shut mapped fb' h = h
    shut unset fb' h = h
    shut map_failed fb' h = h
    shut unmapped fb' h = h

-- What the loop over an array of the granted length comes to.
unfoldable pub Looped : ℕ → Option (Mapped × List Mapping) → Type 0
Looped n none = ⊥
Looped n (some (complete, fb)) = (length fb ≡ n) × AllMapped fb
Looped n (some (query_failed, fb)) = length fb ≡ n
Looped n (some (mmap_failed, fb)) = length fb ≡ n

beside-Looped :
    (n : ℕ) (o : Option (Mapped × List Mapping)) → Looped n o → Looped (suc n) (beside mapped o)
unfolding Looped beside AllMapped
beside-Looped n none h = h
beside-Looped n (some (complete, fb)) (h, all) = (ap suc h, all)
beside-Looped n (some (query_failed, fb)) h = ap suc h
beside-Looped n (some (mmap_failed, fb)) h = ap suc h

mapped_or_not :
    (r : Replies) (i : ℕ) (m : Mapping) (fb : List Mapping)
    → Looped (length fb) (mmap_loop r (length fb) (i + 1) fb)
    → Looped (suc (length fb)) (mmap_loop r (suc (length fb)) i (m ∷ fb))
unfolding mmap_loop
mapped_or_not r i m fb h = elim (Bool-cases (r.querybuf_ok i)) [
  | inl q ↦ elim (Bool-cases (r.mmap_ok i)) [
    | inl e ↦
        subst (Looped (suc (length fb))) (sym (if_then _ _ q ∙ if_then _ _ e))
          (beside-Looped (length fb) _ h)
    | inr e ↦
        subst (Looped (suc (length fb))) (sym (if_then _ _ q ∙ if_else _ _ e))
          (unfold Looped in refl)
  ]
  | inr q ↦ subst (Looped (suc (length fb))) (sym (if_else _ _ q)) (unfold Looped in refl)
]

pub mmap_loop-Looped :
    (r : Replies) (i : ℕ) (fb : List Mapping) → Looped (length fb) (mmap_loop r (length fb) i fb)
mmap_loop-Looped r i [] = unfold mmap_loop Looped AllMapped in (refl, tt)
mmap_loop-Looped r i (m ∷ fb) = mapped_or_not r i m fb (mmap_loop-Looped r (i + 1) fb)
