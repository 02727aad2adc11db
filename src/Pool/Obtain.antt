-- ===== src/Pool/Obtain.antt =====
-- `obtain` pins a frame for a page, which may change then before it is released.
use labdb.Prelude.{
  ℕ, ◌+◌, ◌-◌, ◌<◌, ◌≡◌, ◌≢◌, inl, inr, refl, arith, ◌∙◌, ap, sym, subst, Bool, true, false, List,
  [], ◌∷◌, ◌++◌, none, some, length, set, ok, Bool-cases, ==_refl, ==_ne,
}
use labdb.Page.{Page, id}
use labdb.Wal.Slots.{find, assign, find-assign}
use labdb.PageStore.{SamePage, View}
use labdb.Pager.{Pager, Meta}
use labdb.Pool.{Pool, Frame, frame_at, update, claim, fill, obtain, mark_dirty, release}
use labdb.Pool.Sound.{
  Held, Sound, Changed, set-Changed, Changed-trans, meta-Sound, placed-Sound, PoolShows,
  some-injective,
}
use labdb.Pool.Claim.{Emptied}

-- The frame `i` of `b'` is pinned for the page `n`. Whatever it is changed to then, once it is
-- released the pool holds what it held before, with the changed page.
pub record Obtained (b : Pool) (view : View) (n : ℕ) (b' : Pool) (i : ℕ) : Type 0 where
  pub within : i < length b'.frames
  pub pinned : (frame_at b'.frames i).pins ≡ 1
  pub names : (frame_at b'.frames i).id ≡ n
  pub hand_within : b'.hand < length b'.frames
  pub writes_back : b'.writeback ≡ true
  pub meta : b'.pager.meta ≡ b.pager.meta
  pub settle :
      (frames' : List Frame) (g : Frame) (view' : View) (p : Page)
      → Changed b'.frames frames' i g
      → view' n ≡ some p
      → ((j : ℕ) → n ≢ j → view' j ≡ view j)
      → id p ≡ n
      → g.id ≡ n
      → g.pins ≡ 0
      → SamePage p g.page
      → (g.dirty ≡ false → Held b'.pager n p)
      → Sound b'.pager frames' b'.table view'

module _ (b : Pool) (view : View) (room : ℕ) (h : PoolShows b view room) (n : ℕ) where
  -- A page that is resident keeps its frame.
  pub obtain_hit :
      (i : ℕ) (from_disk : Bool) (f : Frame)
      → f ≡ frame_at b.frames i
      → find n b.table ≡ some i
      → let b' = update b i (record f { pins = f.pins + 1; ref = true }) in
        (obtain b n from_disk ≡ ok (b', i))
        × Obtained b view n b' i
        × Changed b.frames b'.frames i (record f { pins = f.pins + 1; ref = true })
  unfolding obtain
  obtain_hit i from_disk f fe e =
      let (l, old) = h.sound.cached n i e in
      let g : Frame = record f { pins = f.pins + 1; ref = true } in
      let c = set-Changed b.frames i g l in
      let own : f.id ≡ n = ap (λ (f : Frame). f.id) fe ∙ old.names in
      let (n0, lt, names) = h.sound.named n old.page old.seen in
      (
        rw (obtain, e, fe) refl,
        record {
          within = omega (arith, l, c.size);
          pinned =
              ap (λ (f : Frame). f.pins) c.here
              ∙ omega (arith, h.sound.free i l, ap (λ (f : Frame). f.pins) fe);
          names = ap (λ (f : Frame). f.id) c.here ∙ own;
          hand_within = omega (arith, h.hand_within, c.size);
          writes_back = h.writes_back;
          meta = refl;
          settle = λ frames' g' view' p d now elsewhere nm gid gp same clean.
              placed-Sound b.table view' n i p g' h.sound (Changed-trans c d) l (inr old.names)
                (λ k z. some-injective (sym z ∙ e)) e (λ j ne. refl) now elsewhere n0 lt nm gid gp
                same clean;
        },
        c,
      )

  -- A page that is not comes into a claimed frame, as `fill` gives it.
  pub obtain_miss :
      (c d : Pool) (i : ℕ) (from_disk : Bool) (pager : Pager) (page : Page) (count : ℕ)
      → find n b.table ≡ none
      → n ≢ 0
      → n < b.pager.meta.page_count
      → claim b ≡ ok (c, i)
      → Emptied b view room c i
      → d ≡ record c { pager = pager; disk_reads = count }
      → pager ≡ record c.pager { reads = pager.reads }
      → fill c n from_disk ≡ ok (d, page)
      → let g : Frame = record { page = page; id = n; pins = 1; dirty = false; ref = true } in
        let b' = record (update d i g) { table = assign n i d.table } in
        (obtain b n from_disk ≡ ok (b', i))
        × Obtained b view n b' i
        × Changed d.frames b'.frames i g
  unfolding obtain
  obtain_miss c d i from_disk pager page count absent n0 lt ce em de pe fe =
      let s = em.shows in
      let g : Frame = record { page = page; id = n; pins = 1; dirty = false; ref = true } in
      let frames_same : d.frames ≡ c.frames = ap (λ (d : Pool). d.frames) de in
      let l : i < length d.frames = omega (arith, em.within, ap length frames_same) in
      let ch = set-Changed d.frames i g l in
      let base : Sound d.pager d.frames d.table view =
        subst (λ (d : Pool). Sound d.pager d.frames d.table view) (sym de)
          (subst (λ (p : Pager). Sound p c.frames c.table view) (sym pe)
            (meta-Sound c.pager.meta c.pager.meta_dirty pager.reads s.sound (omega arith)
              s.sound.fits)) in
      let metas : d.pager.meta ≡ b.pager.meta =
        ap (λ (d : Pool). d.pager.meta) de ∙ ap (λ (p : Pager). p.meta) pe ∙ em.meta in
      let gone : find n d.table ≡ none =
        ap (λ (d : Pool). find n d.table) de ∙ em.absent n absent in
      let lt' : n < d.pager.meta.page_count =
        omega (arith, lt, ap (λ (m : Meta). m.page_count) metas) in
      let empty : (frame_at d.frames i).id ≡ 0 =
        ap (λ (l : List Frame). (frame_at l i).id) frames_same ∙ em.empty in
      (
        rw (obtain, absent, ce, fe) refl,
        record {
          within = omega (arith, l, ch.size);
          pinned = ap (λ (f : Frame). f.pins) ch.here;
          names = ap (λ (f : Frame). f.id) ch.here;
          hand_within =
              omega (
                arith,
                s.hand_within,
                ch.size,
                ap length frames_same,
                ap (λ (d : Pool). d.hand) de,
              );
          writes_back = ap (λ (d : Pool). d.writeback) de ∙ s.writes_back;
          meta = metas;
          settle = λ frames' g' view' p k now elsewhere nm gid gp same clean.
              placed-Sound (assign n i d.table) view' n i p g' base (Changed-trans ch k) l
                (inl empty) (λ k z. absurd (cc (sym gone ∙ z)))
                (find-assign n n i d.table ∙ rw (==_refl n) refl)
                (λ j ne. find-assign j n i d.table ∙ rw (==_ne n j ne) refl) now elsewhere n0 lt' nm
                gid gp same clean;
        },
        ch,
      )

mark_dirty-dirty : (b : Pool) (i : ℕ) → (frame_at b.frames i).dirty ≡ true → mark_dirty b i ≡ b
unfolding mark_dirty
mark_dirty-dirty b i d = rw (mark_dirty, d) refl

-- The end of a write: the frame is marked and released.
pub mark_release :
    (b : Pool) (i : ℕ) (f : Frame)
    → i < length b.frames
    → frame_at b.frames i ≡ f
    → (frames' : List Frame) × (dirty_list : List ℕ) × (g : Frame) × (release (mark_dirty b i) i
        ≡ record b { frames = frames'; dirty_list = dirty_list })
      × Changed b.frames frames' i g
      × (g.id ≡ f.id)
      × (g.pins ≡ f.pins - 1)
      × (g.dirty ≡ true)
      × (g.page ≡ f.page)
unfolding mark_dirty release
mark_release b i f u e = elim (Bool-cases (frame_at b.frames i).dirty) [
  | inl d ↦
      let f' = frame_at b.frames i in
      let g : Frame = record f' { pins = f'.pins - 1 } in
      (
        set b.frames i g,
        b.dirty_list,
        g,
        ap (λ (b : Pool). release b i) (mark_dirty-dirty b i d),
        set-Changed b.frames i g u,
        ap (λ (f : Frame). f.id) e,
        ap (λ (f : Frame). f.pins - 1) e,
        d,
        ap (λ (f : Frame). f.page) e,
      )
  | inr d ↦
      let f' = frame_at b.frames i in
      let m : Frame = record f' { dirty = true } in
      let c = set-Changed b.frames i m u in
      let f'' = frame_at (set b.frames i m) i in
      let g : Frame = record f'' { pins = f''.pins - 1 } in
      (
        set (set b.frames i m) i g,
        b.dirty_list ++ i ∷ [],
        g,
        rw (mark_dirty, d) refl,
        Changed-trans c (set-Changed (set b.frames i m) i g (omega (arith, u, c.size))),
        ap (λ (f : Frame). f.id) c.here ∙ ap (λ (f : Frame). f.id) e,
        ap (λ (f : Frame). f.pins - 1) c.here ∙ ap (λ (f : Frame). f.pins - 1) e,
        ap (λ (f : Frame). f.dirty) c.here,
        ap (λ (f : Frame). f.page) c.here ∙ ap (λ (f : Frame). f.page) e,
      )
]
