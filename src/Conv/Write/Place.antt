-- ===== src/Conv/Write/Place.antt =====
-- Where the data of a logical page stands: the tables and the states of the pages agree.
use dumping.Conv.Index.{IsSame, IsShaped, page_index_inj}
use dumping.Ssd.Ppa.{Ppa}
use dumping.Ssd.Params.{SsdParams}
use dumping.Conv.Pages.Counted.{IsPage}
use native.Mathlib.Decide.{ℕ_discrete}
use dumping.Base.{
  if_cases, ℕ, true, ◌≡◌, ◌≢◌, ◌<◌, refl, arith, tests, ap, ◌∙◌, update, update_same, update_other,
  sym, ◌⊎◌, inl, inr, ◌==◌, ◌&&◌,
}
use dumping.Conv.Ftl.{
  pg_valid, ConvFtl, Blocks, get_pg, mapped_ppa, page_index, NandBlock, PageStatus, get_blk,
  set_blk, pg_free, pg_invalid,
}

-- The data of `lpn` is on the valid page `a`, which the reverse table shows.
pub record IsPlaced (p : SsdParams) (b : Blocks) (rmap : ℕ → ℕ) (a : Ppa) (lpn : ℕ) : Type 0 where
  pub page : IsPage p a
  pub valid : get_pg b a ≡ pg_valid
  pub back : rmap (page_index p a) ≡ lpn

-- Every logical page that is mapped has its data in place.
abbrev pub IsMapped : {Q : Type 0} → ConvFtl Q → Type 0
IsMapped f =
    (lpn : ℕ)
    → lpn < f.ssd.sp.tt_pgs
    → mapped_ppa (f.maptbl lpn) ≡ true
    → IsPlaced f.ssd.sp f.blocks f.rmap (f.maptbl lpn) lpn

pub status_clash : pg_valid ≢ pg_free
status_clash e = cc

pub invalid_clash : pg_invalid ≢ pg_free
invalid_clash e = cc

-- Two addresses of different pages.
abbrev pub IsApart : Ppa → Ppa → Type 0
IsApart x a =
    (x.ch ≢ a.ch) ⊎ ((x.lun ≢ a.lun) ⊎ ((x.pl ≢ a.pl) ⊎ ((x.blk ≢ a.blk) ⊎ (x.pg ≢ a.pg))))

pub eq_or_ne : (x a : Ppa) → IsSame x a ⊎ IsApart x a
eq_or_ne x a = elim (ℕ_discrete x.ch a.ch) [
  | no ne ↦ inr (inl ne)
  | yes ch ↦ elim (ℕ_discrete x.lun a.lun) [
    | no ne ↦ inr (inr (inl ne))
    | yes lun ↦ elim (ℕ_discrete x.pl a.pl) [
      | no ne ↦ inr (inr (inr (inl ne)))
      | yes pl ↦ elim (ℕ_discrete x.blk a.blk) [
        | no ne ↦ inr (inr (inr (inr (inl ne))))
        | yes blk ↦ elim (ℕ_discrete x.pg a.pg) [
          | no ne ↦ inr (inr (inr (inr (inr ne))))
          | yes pg ↦ inl (record { ch = ch; lun = lun; pl = pl; blk = blk; pg = pg })
        ]
      ]
    ]
  ]
]

same_index : (p : SsdParams) (x a : Ppa) → IsSame x a → page_index p x ≡ page_index p a
same_index p x a s = rw s.ch (rw s.lun (rw s.pl (rw s.blk (rw s.pg refl))))

pub same_status : (b : Blocks) (x a : Ppa) → IsSame x a → get_pg b x ≡ get_pg b a
same_status b x a s = rw s.ch (rw s.lun (rw s.pl (rw s.blk (rw s.pg refl))))

-- Two pages of different indices, or of different states, are not the same.
pub index_ne : (p : SsdParams) (x a : Ppa) → page_index p x ≢ page_index p a → IsApart x a
index_ne p x a ne = elim (eq_or_ne x a) [ inl s ↦ absurd (ne (same_index p x a s)) | inr n ↦ n ]

pub status_ne : (b : Blocks) (x a : Ppa) → get_pg b x ≢ get_pg b a → IsApart x a
status_ne b x a ne = elim (eq_or_ne x a) [ inl s ↦ absurd (ne (same_status b x a s)) | inr n ↦ n ]

pub index_apart :
    (p : SsdParams) (x a : Ppa)
    → IsShaped p
    → IsPage p x
    → IsPage p a
    → IsApart x a
    → page_index p x ≢ page_index p a
index_apart p x a q h k ne e =
    let s = page_index_inj p q x a h.is_in k.is_in e in
    ground (arith, ne, s.ch, s.lun, s.pl, s.blk, s.pg)

is_here :
    (x a : Ppa)
    → (x.ch == a.ch && x.lun == a.lun && x.pl == a.pl && x.blk == a.blk) ≡ true
    → (x.ch ≡ a.ch) × (x.lun ≡ a.lun) × (x.pl ≡ a.pl) × (x.blk ≡ a.blk)
is_here x a h = (grind (tests, h), grind (tests, h), grind (tests, h), grind (tests, h))

-- The states of the pages after the page `a` has got the state `t`.
pub status_other :
    (b : Blocks) (a x : Ppa) (v : NandBlock) (t : PageStatus)
    → v.pg ≡ update (get_blk b a).pg a.pg t
    → IsApart x a
    → get_pg (set_blk b a v) x ≡ get_pg b x
status_other b a x v t e ne =
    if_cases (λ (k : NandBlock). k.pg x.pg ≡ get_pg b x)
      (x.ch == a.ch && x.lun == a.lun && x.pl == a.pl && x.blk == a.blk) v (b x.ch x.lun x.pl x.blk)
      (λ h.
        let s = is_here x a h in
        let pg : x.pg ≢ a.pg = ground (arith, ne, s.0, s.1, s.2, s.3) in
        ap (λ (f : ℕ → PageStatus). f x.pg) e
        ∙ update_other (get_blk b a).pg a.pg t x.pg pg
        ∙ sym (rw s.0 (rw s.1 (rw s.2 (rw s.3 refl)))))
      (λ h. refl)

pub status_same :
    (b : Blocks) (a : Ppa) (v : NandBlock) (t : PageStatus)
    → v.pg ≡ update (get_blk b a).pg a.pg t
    → get_pg (set_blk b a v) a ≡ t
status_same b a v t e =
    let here : set_blk b a v a.ch a.lun a.pl a.blk ≡ v = ground arith in
    ap (λ (k : NandBlock). k.pg a.pg) here
    ∙ ap (λ (f : ℕ → PageStatus). f a.pg) e
    ∙ update_same (get_blk b a).pg a.pg t

-- Data on another page stays in place.
pub kept_other :
    (p : SsdParams) (b : Blocks) (rmap : ℕ → ℕ) (x a : Ppa) (j k : ℕ) (v : NandBlock)
    (t : PageStatus)
    → IsShaped p
    → IsPlaced p b rmap x j
    → IsPage p a
    → IsApart x a
    → v.pg ≡ update (get_blk b a).pg a.pg t
    → IsPlaced p (set_blk b a v) (update rmap (page_index p a) k) x j
kept_other p b rmap x a j k v t q s h ne e = record {
  page = s.page;
  valid = status_other b a x v t e ne ∙ s.valid;
  back =
      update_other rmap (page_index p a) k (page_index p x) (index_apart p x a q s.page h ne)
      ∙ s.back;
}
