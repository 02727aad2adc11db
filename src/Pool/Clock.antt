-- ===== src/Pool/Clock.antt =====
-- The clock of `choose_victim`: it finds a victim in its 2n + 1 rounds wherever there is one.
use native.Mathlib.Nat.{mod-eq_of_lt, mod_self}
use labdb.Prelude.{
  ℕ, zero, suc, ◌+◌, ◌-◌, ◌*◌, ◌%◌, ◌<◌, ◌≡◌, ◌≢◌, ◌⊎◌, inl, inr, refl, arith, ◌∙◌, ap, sym, subst,
  true, false, List, if◌then◌else◌, ◌==◌, leb, ltb, length, length-set, set, get_or-set_self,
  get_or-set_other, ok, fail, Bool-cases,
}
use labdb.Pool.{Pool, Frame, Victim, frame_at, empty_frame, sweep, choose_victim}

-- The same frame but for its `ref` bit.
pub record SameFrame (f g : Frame) : Type 0 where
  pub page : g.page ≡ f.page
  pub id : g.id ≡ f.id
  pub pins : g.pins ≡ f.pins
  pub dirty : g.dirty ≡ f.dirty

-- The victim is a frame, unpinned and cold, the hand stays in bounds, and no frame lost more than its
-- `ref` bit.
pub record Found (frames : List Frame) (v : Victim) : Type 0 where
  pub within : v.index < length frames
  pub hand_within : v.hand < length frames
  pub unpinned : (frame_at frames v.index).pins ≡ 0
  pub cold : (frame_at v.frames v.index).ref ≡ false
  pub size : length v.frames ≡ length frames
  pub kept : (j : ℕ) → SameFrame (frame_at frames j) (frame_at v.frames j)

SameFrame-refl : (f : Frame) → SameFrame f f
SameFrame-refl f = record { page = refl; id = refl; pins = refl; dirty = refl }

cooled : List Frame → ℕ → List Frame
cooled frames i = set frames i (record (frame_at frames i) { ref = false })

module _ (frames : List Frame) (i : ℕ) (u : i < length frames) where
  cooled_self : frame_at (cooled frames i) i ≡ record (frame_at frames i) { ref = false }
  unfolding cooled
  cooled_self = get_or-set_self frames i _ empty_frame u

  cooled_other : (j : ℕ) → i ≢ j → frame_at (cooled frames i) j ≡ frame_at frames j
  unfolding cooled
  cooled_other j h = get_or-set_other frames i j _ empty_frame h

  cooled_same : (j : ℕ) → SameFrame (frame_at frames j) (frame_at (cooled frames i) j)
  cooled_same j = elim (Bool-cases (i == j)) [
    | inl e ↦
        let e' : i ≡ j = ground arith in
        subst (λ k. SameFrame (frame_at frames k) (frame_at (cooled frames i) k)) e'
          (rw cooled_self (record { page = refl; id = refl; pins = refl; dirty = refl }))
    | inr e ↦ rw (cooled_other j (ground arith)) (SameFrame-refl (frame_at frames j))
  ]

  length-cooled : length (cooled frames i) ≡ length frames
  unfolding cooled
  length-cooled = length-set frames i _

  cooled-Found : (v : Victim) → Found (cooled frames i) v → Found frames v
  cooled-Found v f = record {
    within = omega (arith, f.within, length-cooled);
    hand_within = omega (arith, f.hand_within, length-cooled);
    unpinned = sym (cooled_same v.index).pins ∙ f.unpinned;
    cold = f.cold;
    size = f.size ∙ length-cooled;
    kept = λ j.
        let a = cooled_same j in
        let b = f.kept j in
        record {
          page = b.page ∙ a.page;
          id = b.id ∙ a.id;
          pins = b.pins ∙ a.pins;
          dirty = b.dirty ∙ a.dirty;
        };
  }

-- How many steps the hand is away from frame `t`.
distance : ℕ → ℕ → ℕ → ℕ
distance n hand t = if leb hand t then t - hand else t + n - hand

turn :
    (n hand : ℕ)
    → hand < n
    → (((hand + 1) % n ≡ hand + 1) × (hand + 1 < n)) ⊎ (((hand + 1) % n ≡ 0) × (hand + 1 ≡ n))
turn n hand h = elim (Bool-cases (hand + 1 == n)) [
  | inl e ↦ let e' : hand + 1 ≡ n = ground arith in inr (rw e' (mod_self n), e')
  | inr e ↦ let l : hand + 1 < n = ground arith in inl (mod-eq_of_lt l, l)
]

turn-lt : (n hand : ℕ) → hand < n → (hand + 1) % n < n
turn-lt n hand h = elim (turn n hand h) [
  | inl e ↦ omega (arith, e.0, e.1)
  | inr e ↦ omega (arith, e.0)
]

-- A step takes the hand nearer, or once around.
distance-turn :
    (n hand t : ℕ)
    → hand < n
    → t < n
    → hand ≢ t
    → distance n ((hand + 1) % n) t + 1 ≡ distance n hand t
unfolding distance
distance-turn n hand t h u ne = elim (turn n hand h) [
  | inl e ↦ rw e.0 (ground (arith, e.1))
  | inr e ↦ rw e.0 (ground (arith, e.1))
]

distance_around : (n hand : ℕ) → hand < n → distance n ((hand + 1) % n) hand + 1 ≡ n
unfolding distance
distance_around n hand h = elim (turn n hand h) [
  | inl e ↦ rw e.0 (ground (arith, e.1))
  | inr e ↦ rw e.0 (ground (arith, e.1))
]

module _ (left : ℕ) (frames : List Frame) (hand : ℕ) where
  unfoldable next : ℕ
  next = (hand + 1) % length frames

  sweep-pinned :
      ltb 0 (frame_at frames hand).pins ≡ true
      → sweep (suc left) frames hand ≡ sweep left frames next
  unfolding sweep next
  sweep-pinned e = rw (sweep, e)

  sweep-warm :
      ltb 0 (frame_at frames hand).pins ≡ false
      → (frame_at frames hand).ref ≡ true
      → sweep (suc left) frames hand ≡ sweep left (cooled frames hand) next
  unfolding sweep next cooled
  sweep-warm e r = rw (sweep, e, r)

  sweep-cold :
      ltb 0 (frame_at frames hand).pins ≡ false
      → (frame_at frames hand).ref ≡ false
      → hand < length frames
      → (v : Victim) × (sweep (suc left) frames hand ≡ ok v) × Found frames v
  unfolding sweep next
  sweep-cold e r u = (
    record { frames = frames; hand = (hand + 1) % length frames; index = hand },
    rw (sweep, e, r),
    record {
      within = u;
      hand_within = turn-lt (length frames) hand u;
      unpinned = ground arith;
      cold = r;
      size = refl;
      kept = λ j. SameFrame-refl (frame_at frames j);
    },
  )

-- What a shorter sweep finds, the longer one finds.
longer_sweep :
    (frames : List Frame) (i left left' hand hand' : ℕ)
    → i < length frames
    → sweep left' frames hand ≡ sweep left (cooled frames i) hand'
    → (v : Victim) × (sweep left (cooled frames i) hand' ≡ ok v) × Found (cooled frames i) v
    → (v : Victim) × (sweep left' frames hand ≡ ok v) × Found frames v
longer_sweep frames i left left' hand hand' u e (v, s, f) = (v, e ∙ s, cooled-Found frames i u v f)

-- A frame that is unpinned and cold is reached, or another victim before it.
sweep_to_cold :
    (left : ℕ) (frames : List Frame) (hand t : ℕ)
    → hand < length frames
    → t < length frames
    → (frame_at frames t).pins ≡ 0
    → (frame_at frames t).ref ≡ false
    → distance (length frames) hand t < left
    → (v : Victim) × (sweep left frames hand ≡ ok v) × Found frames v
unfolding next
sweep_to_cold zero frames hand t h u p r d = absurd (omega arith)
sweep_to_cold (suc left) frames hand t h u p r d =
    let n = length frames in
    let on = turn-lt n hand h in
    elim (Bool-cases (ltb 0 (frame_at frames hand).pins)) [
      | inl pinned ↦
          let ne : hand ≢ t = λ e. absurd (ground (arith, ap (λ k. (frame_at frames k).pins) e)) in
          let (v, s, f) =
            sweep_to_cold left frames ((hand + 1) % n) t on u p r
              (omega (arith, distance-turn n hand t h u ne)) in
          (v, sweep-pinned left frames hand pinned ∙ s, f)
      | inr free ↦ elim (Bool-cases (frame_at frames hand).ref) [
        | inr cold ↦ sweep-cold left frames hand free cold h
        | inl warm ↦
            let ne : hand ≢ t = λ e. absurd (cc (warm, r, ap (λ k. (frame_at frames k).ref) e)) in
            let same = cooled_other frames hand h t ne in
            let size = length-cooled frames hand h in
            longer_sweep frames hand left (suc left) hand ((hand + 1) % n) h
              (sweep-warm left frames hand free warm)
              (sweep_to_cold left (cooled frames hand) ((hand + 1) % n) t (omega (arith, on, size))
                (omega (arith, size)) (ap (λ f. f.pins) same ∙ p) (ap (λ f. f.ref) same ∙ r)
                (rw size (omega (arith, distance-turn n hand t h u ne))))
      ]
    ]

-- A frame that is unpinned is reached, cooled and reached again, or another victim before that.
sweep_to_free :
    (left : ℕ) (frames : List Frame) (hand t : ℕ)
    → hand < length frames
    → t < length frames
    → (frame_at frames t).pins ≡ 0
    → distance (length frames) hand t + length frames < left
    → (v : Victim) × (sweep left frames hand ≡ ok v) × Found frames v
unfolding next
sweep_to_free zero frames hand t h u p d = absurd (omega arith)
sweep_to_free (suc left) frames hand t h u p d =
    let n = length frames in
    let on = turn-lt n hand h in
    elim (Bool-cases (ltb 0 (frame_at frames hand).pins)) [
      | inl pinned ↦
          let ne : hand ≢ t = λ e. absurd (ground (arith, ap (λ k. (frame_at frames k).pins) e)) in
          let (v, s, f) =
            sweep_to_free left frames ((hand + 1) % n) t on u p
              (omega (arith, distance-turn n hand t h u ne)) in
          (v, sweep-pinned left frames hand pinned ∙ s, f)
      | inr free ↦ elim (Bool-cases (frame_at frames hand).ref) [
        | inr cold ↦ sweep-cold left frames hand free cold h
        | inl warm ↦
            let size = length-cooled frames hand h in
            let go =
              longer_sweep frames hand left (suc left) hand ((hand + 1) % n) h
                (sweep-warm left frames hand free warm) in
            let on' : (hand + 1) % n < length (cooled frames hand) = omega (arith, on, size) in
            elim (Bool-cases (hand == t)) [
              | inr e ↦
                  let ne : hand ≢ t = ground arith in
                  go (
                    sweep_to_free left (cooled frames hand) ((hand + 1) % n) t on'
                      (omega (arith, size)) (ap (λ f. f.pins) (cooled_other frames hand h t ne) ∙ p)
                      (rw size (omega (arith, distance-turn n hand t h u ne))))
              | inl e ↦
                  let self = cooled_self frames hand h in
                  go (
                    sweep_to_cold left (cooled frames hand) ((hand + 1) % n) hand on'
                      (omega (arith, size, h)) (ap (λ f. f.pins) self ∙ ground arith)
                      (ap (λ f. f.ref) self) (rw size (omega (arith, distance_around n hand h))))
            ]
      ]
    ]

distance-lt : (n hand t : ℕ) → hand < n → t < n → distance n hand t < n
unfolding distance
distance-lt n hand t h u = ground arith

-- Where the hand is in bounds and some frame is unpinned, the clock finds a victim: a frame
-- that was not pinned, and whose `ref` bit is clear by then; the hand stays in bounds. No frame changes but in its `ref`
-- bit, and the pool changes in its frames and its hand alone.
pub choose_victim-Found :
    (b : Pool) (t : ℕ)
    → b.hand < length b.frames
    → t < length b.frames
    → (frame_at b.frames t).pins ≡ 0
    → (v : Victim) × (choose_victim b ≡ ok (record b { frames = v.frames; hand = v.hand }, v.index))
      × Found b.frames v
unfolding choose_victim
choose_victim-Found b t h u p =
    let n = length b.frames in
    let (v, s, f) =
      sweep_to_free (2 * n + 1) b.frames b.hand t h u p
        (omega (arith, distance-lt n b.hand t h u)) in
    (v, rw s, f)

sweep-all_pinned :
    (left : ℕ) (frames : List Frame) (hand : ℕ)
    → hand < length frames
    → ((t : ℕ) → t < length frames → (frame_at frames t).pins ≢ 0)
    → sweep left frames hand ≡ sweep 0 frames 0
unfolding sweep next
sweep-all_pinned zero frames hand h p = refl
sweep-all_pinned (suc left) frames hand h p =
    sweep-pinned left frames hand (ground (arith, p hand h))
    ∙ sweep-all_pinned left frames ((hand + 1) % length frames) (turn-lt (length frames) hand h) p

-- Where the hand is in bounds and every frame is pinned, the clock fails with the message that
-- the pool is exhausted.
pub choose_victim-eq-fail :
    (b : Pool)
    → b.hand < length b.frames
    → ((t : ℕ) → t < length b.frames → (frame_at b.frames t).pins ≢ 0)
    → choose_victim b
      ≡ fail
          "buffer pool exhausted: every frame is pinned (capacity is smaller than the working pin set)"
unfolding choose_victim sweep
choose_victim-eq-fail b h p = rw (sweep-all_pinned (2 * length b.frames + 1) b.frames b.hand h p)
