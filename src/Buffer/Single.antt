-- ===== src/Buffer/Single.antt =====
-- One buffer set up and torn down.
use synchronome.Base.{◌≡◌, refl, sym, ap, subst, inl, inr, ◌⊎◌, none, some}
use synchronome.Buffer.Arrays.{IsLive}
use synchronome.Buffer.Allocation.{IsReleased}
use synchronome.Buffer.{
  Buffer, Reply, Memory, null, live, freed, Ret, ok, err, release, deallocate_buffer, allocated,
  allocate_buffer, allocate_single_buffer,
}

-- Memory that free(3) may be given.
abbrev pub IsOwned : Memory → Type 0
IsOwned null = Unit
IsOwned (live _) = Unit
IsOwned freed = ⊥

abbrev pub Allocated : Ret × Buffer → Type 0
Allocated (ok, b) = IsLive b.start
Allocated (err, b) = b.start ≡ null

pub allocate_single_buffer-Allocated :
    (reply : Reply) (b : Buffer) → Allocated (allocate_single_buffer reply b)
unfolding allocate_single_buffer allocate_buffer allocated
allocate_single_buffer-Allocated none b = refl
allocate_single_buffer-Allocated (some content) b = tt

pub live-IsOwned : (m : Memory) → IsLive m → IsOwned m
live-IsOwned null h = tt
live-IsOwned (live bytes) h = tt
live-IsOwned freed h = h

pub null-IsOwned : (m : Memory) → m ≡ null → IsOwned m
null-IsOwned m e = subst IsOwned (sym e) tt

release-IsReleased :
    (m : Memory) → IsOwned m → (m' : Memory) × (release m ≡ some m') × ((m' ≡ null) ⊎ (m' ≡ freed))
unfolding release
release-IsReleased null h = (null, refl, inl refl)
release-IsReleased (live bytes) h = (freed, refl, inr refl)
release-IsReleased freed h = absurd h

pub deallocate_buffer-IsReleased :
    (b : Buffer) → IsOwned b.start → (b' : Buffer) × (deallocate_buffer b ≡ some b') × IsReleased b'
unfolding deallocate_buffer
deallocate_buffer-IsReleased b h =
    let (m, e, rest) = release-IsReleased b.start h in
    (
      record b { start = m },
      ap (λ o. elim o [ none ↦ none | some m ↦ some (record b { start = m }) ]) e,
      rest,
    )
