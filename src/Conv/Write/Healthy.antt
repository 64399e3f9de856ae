-- ===== src/Conv/Write/Healthy.antt =====
-- The namespaces whose instances can all write, and what keeps them so (conv_ftl.c).
use dumping.Conv.Read.Live.{device_at, relinked}
use dumping.Conv.Pointer.Advance.{IsOpen}
use dumping.Conv.Write.Step.{IsGood}
use dumping.Conv.Write.{ConvNs, set_ftl}
use dumping.Ssd.Nand.Transfer
use dumping.Base.{ℕ, ◌≡◌, ◌<◌, refl, ◌==◌, if_cases}
use dumping.Ssd.Nand.{Link, Ssd}
use dumping.Conv.Ftl.{ConvFtl}

-- The instances can write and their devices are valid.
pub record IsHealthy {Q : Type 0} (n : ConvNs Q) : Type 0 where
  pub parts : 0 < n.nr_parts
  pub good : (i : ℕ) → i < n.nr_parts → IsGood (n.ftls i)
  pub valid : (i : ℕ) → i < n.nr_parts → Transfer.IsValid (device_at n i)

-- What a device command and the credits leave of an instance.
pub record IsAlike {Q : Type 0} (f g : ConvFtl Q) : Type 0 where
  pub params : g.ssd.sp ≡ f.ssd.sp
  pub blocks : g.blocks ≡ f.blocks
  pub maptbl : g.maptbl ≡ f.maptbl
  pub rmap : g.rmap ≡ f.rmap
  pub lm : g.lm ≡ f.lm
  pub wp : g.wp ≡ f.wp
  pub page_counter : g.page_counter ≡ f.page_counter

module _ {Q : Type 0} where
  IsOpen-alike : (f g : ConvFtl Q) → IsAlike f g → IsOpen f → IsOpen g
  IsOpen-alike f g e o = record {
    chip = rw e.params (rw e.wp o.chip);
    exists = rw e.params (rw e.wp o.exists);
    curline = rw e.wp o.curline;
    plane = rw e.wp o.plane;
    page = rw e.params (rw e.wp (rw e.page_counter o.page));
    room = rw e.params (rw e.wp (rw e.page_counter o.room));
    fill = rw e.params (rw e.wp (rw e.page_counter (rw e.blocks o.fill)));
    stock = rw e.params (rw e.wp (rw e.blocks (rw e.lm o.stock)));
  }

  pub IsGood-alike : (f g : ConvFtl Q) → IsAlike f g → IsGood f → IsGood g
  IsGood-alike f g e h = record {
    small = rw e.params h.small;
    shaped = rw e.params h.shaped;
    counted = rw e.params (rw e.blocks (rw e.lm h.counted));
    mapped = rw e.params (rw e.maptbl (rw e.rmap (rw e.blocks h.mapped)));
    opened = IsOpen-alike f g e h.opened;
  }

  pub set_ftl-IsHealthy :
      (n : ConvNs Q) (i : ℕ) (f : ConvFtl Q) (k : Link)
      → IsHealthy n
      → IsGood f
      → Transfer.IsValid (record { ssd = f.ssd; link = k })
      → IsHealthy (set_ftl n i f k)
  set_ftl-IsHealthy n i f k h g v = record {
    parts = h.parts;
    good = λ j lt. if_cases IsGood (i == j) f (n.ftls j) (λ e. g) (λ e. h.good j lt);
    valid = λ j lt.
        if_cases (λ (x : ConvFtl Q). Transfer.IsValid (record { ssd = x.ssd; link = k })) (i == j) f
          (n.ftls j) (λ e. v)
          (λ e.
            relinked (n.ftls j).ssd n.link k (h.valid j lt) (record { ssd = f.ssd; link = k }) v);
  }

  pub IsAlike-ssd : (f : ConvFtl Q) (s : Ssd) → s.sp ≡ f.ssd.sp → IsAlike f (record f { ssd = s })
  IsAlike-ssd f s e = record {
    params = e;
    blocks = refl;
    maptbl = refl;
    rmap = refl;
    lm = refl;
    wp = refl;
    page_counter = refl;
  }
