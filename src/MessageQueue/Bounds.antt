-- ===== src/MessageQueue/Bounds.antt =====
-- The representation invariant of the ring of io/slam_message_queue.c, against the list of the
-- messages that it holds.
use slam.Base.{
  ℕ, suc, ◌+◌, ◌-◌, ◌%◌, ◌^◌, ◌≤◌, ◌<◌, ◌≡◌, ◌≢◌, refl, ◌∙◌, ap, Option, none, some, List, [], ◌∷◌,
  ◌++◌, ret, length, length-replicate, get_or, set, replicate, get_or-set_self, get_or-set_ne,
  arith, dec_le, add-zero, mod-eq_of_lt, mod-eq-sub-mod, mod-add-mod,
}
use slam.MessageQueue.{MessageQueue, new}

module _ {ℓ} {A : Type ℓ} where
  -- The slots from index `h` on, going round at `cap`, hold the messages of the list.
  abbrev pub Slots : List (Option A) → ℕ → ℕ → List A → Type ℓ
  Slots buf cap h [] = Unit
  Slots buf cap h (x ∷ xs) = (get_or buf h none ≡ some x) × Slots buf cap ((h + 1) % cap) xs

  pub record Holds (mq : MessageQueue A) (xs : List A) : Type ℓ where
    pub storage : length mq.queue ≡ mq.maxsize
    pub small : mq.maxsize ≤ 2 ^ 31
    pub reads_in : mq.rindex < mq.maxsize
    pub writes_in : mq.windex < mq.maxsize
    pub fits : length xs < mq.maxsize
    pub ahead : mq.windex ≡ (mq.rindex + length xs) % mq.maxsize
    pub reads : mq.read_number ≡ mq.rindex
    pub writes : mq.write_number ≡ mq.rindex + length xs
    pub slots : Slots mq.queue mq.maxsize mq.rindex xs

  -- All positions of the ring have been read once.
  abbrev pub IsSpent : MessageQueue A → Type 0
  IsSpent mq = mq.maxsize ≤ mq.rindex

  -- A new ring of between 1 and 2 ^ 31 positions has that size, holds no message and reads from
  -- position 0.
  pub new-Holds :
      (maxsize : ℕ)
      → 0 < maxsize
      → maxsize ≤ 2 ^ 31
      → (mq : MessageQueue A) × (new maxsize ≡ ret mq)
        × Holds mq []
        × (mq.rindex ≡ 0)
        × (mq.maxsize ≡ maxsize)
  unfolding new
  new-Holds maxsize h small = (
    record {
      queue = replicate maxsize none;
      maxsize = maxsize;
      rindex = 0;
      windex = 0;
      read_number = 0;
      write_number = 0;
    },
    ground arith,
    record {
      storage = length-replicate maxsize none;
      small = small;
      reads_in = h;
      writes_in = h;
      fits = h;
      ahead = omega arith;
      reads = refl;
      writes = refl;
      slots = tt;
    },
    refl,
    refl,
  )

-- A position less than a full turn ahead is another position.
pub ahead-ne : (cap h k : ℕ) → h < cap → k < cap → 0 < k → (h + k) % cap ≢ h
ahead-ne cap h k hh hk pos e = elim (dec_le cap (h + k)) [
  | yes over ↦
      let back : (h + k) % cap ≡ h + k - cap =
        mod-eq-sub-mod {n = h + k} {m = cap} over ∙ mod-eq_of_lt {n = h + k - cap} (omega arith) in
      omega arith
  | no within ↦ omega (arith, mod-eq_of_lt {n = h + k} {m = cap} (omega arith))
]

pub shift-mod : (cap h n : ℕ) → (h + suc n) % cap ≡ ((h + 1) % cap + n) % cap
shift-mod cap h n = rw mod-add-mod (ap (λ k. k % cap) (omega arith))

module _ {ℓ} {A : Type ℓ} where
  -- A write just past the slots of a list extends them by that message.
  pub Slots-set :
      (buf : List (Option A)) (cap : ℕ) (x : A) (xs : List A) (h i : ℕ)
      → cap ≤ length buf
      → h < cap
      → length xs < cap
      → i ≡ (h + length xs) % cap
      → Slots buf cap h xs
      → Slots (set buf i (some x)) cap h (xs ++ (x ∷ []))
  Slots-set buf cap x [] h i hs hh hn e s =
      (rw (e, add-zero, mod-eq_of_lt hh, get_or-set_self buf h (some x) none (omega arith)), tt)
  Slots-set buf cap x (y ∷ ys) h i hs hh hn e s = (
    get_or-set_ne buf i h (some x) none
          (rw e (ahead-ne cap h (suc (length ys)) hh hn (omega arith)))
        ∙ s.0,
    Slots-set buf cap x ys ((h + 1) % cap) i hs (omega arith) (omega arith)
        (e ∙ shift-mod cap h (length ys)) s.1,
  )

  -- The queue is empty exactly when the two indices agree.
  pub Holds-empty :
      {mq : MessageQueue A} (xs : List A) → Holds mq xs → mq.rindex ≡ mq.windex → xs ≡ []
  Holds-empty {mq} [] v e = refl
  Holds-empty {mq} (x ∷ xs) v e = absurd (
      ahead-ne mq.maxsize mq.rindex (suc (length xs)) v.reads_in v.fits (omega arith)
        (omega (arith, v.ahead)))
