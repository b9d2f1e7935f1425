-- ===== src/Paging/Fault/Frames.antt =====
-- The copying of a page in `pg_resolve_fault` of src/kernel/paging.cpp.
use klos.Base.{ℕ, zero, suc, ◌≡◌, ◌≢◌, ◌&&◌, ltb, ◌==◌, if◌then◌else◌, update, upto, arith}
use klos.Paging.{Paging, pg_get_physical}
use klos.Paging.Fault.{copy_frame}

abbrev copy_word : (src dst i : ℕ) → (ℕ → ℕ → ℕ) → ℕ → ℕ → ℕ
copy_word src dst i f = update f dst (update (f dst) i (f src i))

copy_words :
    (n src dst : ℕ) (f : ℕ → ℕ → ℕ) (q j : ℕ)
    → src ≢ dst
    → upto n (copy_word src dst) f q j ≡ (if (q == dst) && ltb j n then f src j else f q j)
unfolding upto update
copy_words zero src dst f q j h = ground arith
copy_words (suc n) src dst f q j h =
    let g = upto n (copy_word src dst) f in
    ground (
      arith,
      copy_words n src dst f q j h,
      copy_words n src dst f dst j h,
      copy_words n src dst f src n h,
    )

-- The frame of dst gets the words of the frame of src, and no other frame is changed.
pub copy_frame-copies :
    (active src dst : ℕ) (m : Paging) (f : ℕ → ℕ → ℕ) (q j : ℕ)
    → pg_get_physical active src m ≢ pg_get_physical active dst m
    → copy_frame active src dst m f q j ≡ (
        if (q == pg_get_physical active dst m) && ltb j 1024
        then f (pg_get_physical active src m) j
        else f q j)
unfolding copy_frame
copy_frame-copies active src dst m f q j h =
    copy_words 1024 (pg_get_physical active src m) (pg_get_physical active dst m) f q j h
