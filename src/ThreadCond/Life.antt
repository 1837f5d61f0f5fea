-- ===== src/ThreadCond/Life.antt =====
-- What is made and destroyed in src/io/slam_thread_cond.c.
use slam.Base.{
  ℕ, ◌+◌, ◌-◌, ◌≡◌, refl, ◌∙◌, Option, none, some, arith, ◌==◌, if◌then◌else◌, true, false, Bool,
}
use slam.ThreadCond.{Pthread, ThreadCond, new, new_cond, delete}

-- A count of the mutexes and conditions that live: a function that makes one adds 1 when it succeeds, and
-- the destruction of one takes 1 away.
pub record IsCounted {W M C : Type 0} (pthread : Pthread W M C) (live : W → ℕ) : Type 0 where
  pub mutex_init_counts :
      (w : W)
      → live (pthread.mutex_init w).2 ≡ live w + (if (pthread.mutex_init w).0 == 0 then 1 else 0)
  pub cond_init_counts :
      (w : W)
      → live (pthread.cond_init w).2 ≡ live w + (if (pthread.cond_init w).0 == 0 then 1 else 0)
  pub mutex_destroy_counts : (mtx : M) (w : W) → live (pthread.mutex_destroy mtx w) ≡ live w - 1
  pub cond_destroy_counts : (cond : C) (w : W) → live (pthread.cond_destroy cond w) ≡ live w - 1

module _ {W M C : Type 0} (pthread : Pthread W M C) (live : W → ℕ)
    (counted : IsCounted pthread live) where
  -- what lives once an object was made and deleted, or could not be made
  unfoldable pub left_over : Option (ThreadCond M C) × W → ℕ
  unfolding delete
  left_over (none, w) = live w
  left_over (some slam_cond, w) = live (delete pthread slam_cond w)

  delete-live :
      (slam_cond : ThreadCond M C) (w : W) → live (delete pthread slam_cond w) ≡ live w - 2
  unfolding delete
  delete-live slam_cond w = omega (
    arith,
    counted.cond_destroy_counts slam_cond.cond (pthread.mutex_destroy slam_cond.mtx w),
    counted.mutex_destroy_counts slam_cond.mtx w,
  )

  left_over-if :
      (b : Bool) (x y : Option (ThreadCond M C) × W)
      → left_over (if b then x else y) ≡ (if b then left_over x else left_over y)
  left_over-if true x y = refl
  left_over-if false x y = refl

  -- whether the condition is made, once the mutex is
  abbrev cond_made : W → Bool
  cond_made w = (pthread.cond_init w).0 == 0

  new_cond-live :
      (mtx : M) (w : W)
      → left_over (new_cond pthread mtx w) ≡ (if cond_made w then live w - 1 else live w)
  unfolding left_over new_cond
  new_cond-live mtx w =
      left_over-if (cond_made w) _ _
      ∙ ground (
        arith,
        counted.cond_init_counts w,
        delete-live (record { mtx = mtx; cond = (pthread.cond_init w).1 }) (pthread.cond_init w).2,
      )

  -- whether the mutex is made
  abbrev mutex_made : W → Bool
  mutex_made w = (pthread.mutex_init w).0 == 0

  -- An object that is made and deleted leaves what was there before. So does one whose mutex cannot be
  -- made; one whose condition cannot be made leaves its mutex behind.
  pub new_lem :
      (w : W)
      → left_over (new pthread w) ≡ (
          if mutex_made w
          then (if cond_made (pthread.mutex_init w).2 then live w else live w + 1)
          else live w)
  unfolding left_over new
  new_lem w =
      left_over-if (mutex_made w) _ _
      ∙ ground (
        arith,
        counted.mutex_init_counts w,
        new_cond-live (pthread.mutex_init w).1 (pthread.mutex_init w).2,
      )
