-- ===== src/Conv/Read/Live.antt =====
-- The instances of a namespace that requests can work on, and what a read leaves of them.
use dumping.Conv.Write.Place.{IsMapped}
use dumping.Ssd.Nand.{Ssd, Device, Link}
use dumping.Conv.Ftl.{ConvFtl}
use dumping.Conv.Write.{ConvNs, set_ftl}
use dumping.Ssd.Nand.Transfer
use dumping.Base.{ℕ, ◌≡◌, ◌<◌, refl, ◌∙◌, subst, sym, ◌==◌, if_cases, ==→eq}

abbrev pub device_at : {Q : Type 0} → ConvNs Q → ℕ → Device
device_at n i = record { ssd = (n.ftls i).ssd; link = n.link }

-- The instances share their parameters, their mapped pages are in place and their devices are
-- valid.
pub record IsLive {Q : Type 0} (n : ConvNs Q) : Type 0 where
  pub parts : 0 < n.nr_parts
  pub same : (i : ℕ) → i < n.nr_parts → (n.ftls i).ssd.sp ≡ (n.ftls 0).ssd.sp
  pub cells : (n.ftls 0).ssd.sp.cell_mode < 3
  pub mapped : (i : ℕ) → i < n.nr_parts → IsMapped (n.ftls i)
  pub valid : (i : ℕ) → i < n.nr_parts → Transfer.IsValid (device_at n i)

-- What a read leaves of an instance, and of a namespace.
pub record IsTables {Q : Type 0} (f g : ConvFtl Q) : Type 0 where
  pub maptbl : g.maptbl ≡ f.maptbl
  pub rmap : g.rmap ≡ f.rmap
  pub blocks : g.blocks ≡ f.blocks
  pub lm : g.lm ≡ f.lm
  pub params : g.ssd.sp ≡ f.ssd.sp

pub record IsReadOnly {Q : Type 0} (n m : ConvNs Q) : Type 0 where
  pub parts : m.nr_parts ≡ n.nr_parts
  pub tables : (i : ℕ) → IsTables (n.ftls i) (m.ftls i)

-- Another instance's device, after the link has changed.
pub relinked :
    (s : Ssd) (k l : Link)
    → Transfer.IsValid (record { ssd = s; link = k })
    → (d : Device) → Transfer.IsValid (record d { link = l })
    → Transfer.IsValid (record { ssd = s; link = l })
relinked s k l v d w = record {
  channels = v.channels;
  pcie = w.pcie;
  moves = v.moves;
  short = v.short;
  flash = v.flash;
}

module _ {Q : Type 0} where
  pub IsTables-same : (f : ConvFtl Q) → IsTables f f
  IsTables-same f = record { maptbl = refl; rmap = refl; blocks = refl; lm = refl; params = refl }

  pub IsReadOnly-same : (n : ConvNs Q) → IsReadOnly n n
  IsReadOnly-same n = record { parts = refl; tables = λ i. IsTables-same (n.ftls i) }

  pub IsReadOnly-trans : (n m k : ConvNs Q) → IsReadOnly n m → IsReadOnly m k → IsReadOnly n k
  IsReadOnly-trans n m k a b = record {
    parts = b.parts ∙ a.parts;
    tables = λ i. record {
      maptbl = (b.tables i).maptbl ∙ (a.tables i).maptbl;
      rmap = (b.tables i).rmap ∙ (a.tables i).rmap;
      blocks = (b.tables i).blocks ∙ (a.tables i).blocks;
      lm = (b.tables i).lm ∙ (a.tables i).lm;
      params = (b.tables i).params ∙ (a.tables i).params;
    };
  }

  IsMapped-tables : (f g : ConvFtl Q) → IsTables f g → IsMapped f → IsMapped g
  IsMapped-tables f g t m = rw t.params (rw t.maptbl (rw t.rmap (rw t.blocks m)))

  pub IsLive-step :
      (n m : ConvNs Q)
      → IsLive n
      → IsReadOnly n m
      → ((i : ℕ) → i < n.nr_parts → Transfer.IsValid (device_at m i))
      → IsLive m
  IsLive-step n m h k v = record {
    parts = rw k.parts h.parts;
    same = λ i lt.
        (k.tables i).params ∙ h.same i (subst (λ t. i < t) k.parts lt) ∙ sym (k.tables 0).params;
    cells = rw (k.tables 0).params h.cells;
    mapped = λ i lt.
        IsMapped-tables (n.ftls i) (m.ftls i) (k.tables i)
          (h.mapped i (subst (λ t. i < t) k.parts lt));
    valid = λ i lt. v i (subst (λ t. i < t) k.parts lt);
  }

  -- An instance's device has changed.
  pub set_ssd-IsLive :
      (n : ConvNs Q) (i : ℕ) (d : Device)
      → IsLive n
      → i < n.nr_parts
      → Transfer.IsValid d
      → d.ssd.sp ≡ (n.ftls i).ssd.sp
      → IsLive (set_ftl n i (record (n.ftls i) { ssd = d.ssd }) d.link)
        × IsReadOnly n (set_ftl n i (record (n.ftls i) { ssd = d.ssd }) d.link)
  set_ssd-IsLive n i d h lt v e =
      let m = set_ftl n i (record (n.ftls i) { ssd = d.ssd }) d.link in
      let k : IsReadOnly n m = record {
        parts = refl;
        tables = λ j.
            if_cases (λ (x : ConvFtl Q). IsTables (n.ftls j) x) (i == j)
              (record (n.ftls i) { ssd = d.ssd }) (n.ftls j)
              (λ ej.
                subst (λ t. IsTables (n.ftls t) (record (n.ftls i) { ssd = d.ssd })) (==→eq i j ej)
                  (record { maptbl = refl; rmap = refl; blocks = refl; lm = refl; params = e }))
              (λ ne. IsTables-same (n.ftls j));
      } in
      (
        IsLive-step n m h k (λ j lt'.
            if_cases (λ (x : ConvFtl Q). Transfer.IsValid (record { ssd = x.ssd; link = d.link }))
              (i == j) (record (n.ftls i) { ssd = d.ssd }) (n.ftls j) (λ ej. v)
              (λ ne. relinked (n.ftls j).ssd n.link d.link (h.valid j lt') d v)),
        k,
      )
