-- ===== src/Ssd/Ppa.antt =====
-- struct ppa (ssd.h): a physical page address, a union of bit fields and of one 64-bit word.
use dumping.Base.{ℕ, ◌+◌, ◌*◌, ◌^◌}

pub record Ppa : Type 0 where
  pub pg : ℕ
  pub blk : ℕ
  pub pl : ℕ
  pub lun : ℕ
  pub ch : ℕ
  pub rsv : ℕ

-- The widths of the bit fields.
abbrev pub page_bits : ℕ
page_bits = 16

abbrev pub blk_bits : ℕ
blk_bits = 16

abbrev pub pl_bits : ℕ
pl_bits = 8

abbrev pub lun_bits : ℕ
lun_bits = 8

abbrev pub ch_bits : ℕ
ch_bits = 8

-- The member `h.blk_in_ssd`.
abbrev pub blk_in_ssd : Ppa → ℕ
blk_in_ssd p = p.blk + 2 ^ 16 * (p.pl + 2 ^ 8 * (p.lun + 2 ^ 8 * p.ch))

-- The member `ppa`.
abbrev pub word : Ppa → ℕ
word p = p.pg + 2 ^ 16 * (blk_in_ssd p + 2 ^ 40 * p.rsv)

-- The address whose word is UNMAPPED_PPA.
abbrev pub unmapped_ppa : Ppa
unmapped_ppa = record { pg = 0xffff; blk = 0xffff; pl = 0xff; lun = 0xff; ch = 0xff; rsv = 0xff }

abbrev pub zero_ppa : Ppa
zero_ppa = record { pg = 0; blk = 0; pl = 0; lun = 0; ch = 0; rsv = 0 }
