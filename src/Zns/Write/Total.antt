-- ===== src/Zns/Write/Total.antt =====
-- A plain write as a whole.
use dumping.Zns.Address.Stripe.{IsStriped-cong}
use dumping.Ssd.Buffer.{buffer_allocate}
use dumping.Zns.Mgmt.{zone_limit}
use dumping.Zns.Write.Admit.{IsAdmitted, write_admit-IsAdmitted}
use native.Mathlib.Decide.{ℕ_discrete}
use dumping.Ssd.Nand.Transfer.{IsSent, ssd_advance_pcie-Returns}
use dumping.Zns.Address.{lba_to_zone, zone_to_elpn}
use dumping.Ssd.Nand.{ssd_advance_write_buffer, Device}
use dumping.Zns.Counts.{IsAccounted}
use dumping.Zns.Write.Loop.{
  IsWritten, IsWritable, write_loop-IsWritten, IsWritable-step, IsWritten-trans,
}
use dumping.Zns.Write.{
  Written, WriteCmd, is_success, write_admit, increase_write_ptr, write_data, allocate_in,
  buffer_of, completion, zns_write_plain,
}
use dumping.Base.{
  div_mono, div_le, refl, ℕ, true, false, some, none, Option, ◌≡◌, arith, u64, ◌≢◌, ◌+◌, ◌<◌, ◌*◌,
  ◌^◌, sub64, ◌/◌, ◌≤◌, ◌-◌, ◌∙◌, subst, ap, if◌then◌else◌, if_cases, not, ltb, ◌||◌, ◌==◌, ltb→lt,
  ltb→le,
}
use dumping.Base.Run.{ok, bug, Returns, Returns-bind, ◌>>=◌, Returns-if}
use dumping.Ssd.Nand.Transfer
use dumping.Zns.Ftl.{
  ZnsFtl, Status, success, WriteBuffer, global_buffer, zone_buffer, zwra_buffer, Zone,
}
use dumping.Zns.Write.Pointer.{IsPassed, leak, increase_write_ptr-IsPassed}
use dumping.Zns.Send.Frame.{IsFramed}

-- What a write that is not put off leaves, of the zone `zid` and the counts.
pub record IsDone (leaked : ℕ) (f : ZnsFtl) (zid nr_lba : ℕ) (w : Written) : Type 0 where
  pub counted : IsAccounted leaked w.ftl
  pub moved :
      w.status ≡ success
      → (w.slba ≡ (f.zone_descs zid).wp)
        × ((w.ftl.zone_descs zid).wp ≡ u64 ((f.zone_descs zid).wp + nr_lba))
  pub others : (i : ℕ) → i ≢ zid → w.ftl.zone_descs i ≡ f.zone_descs i
  pub refused :
      w.status ≢ success → (w.ftl.zone_descs ≡ f.zone_descs) × (w.ftl.res_infos ≡ f.res_infos)

-- The bytes that the buffer of the zone `zid` can still take.
abbrev pub room_of : ZnsFtl → ℕ → ℕ
room_of f zid =
    if f.zp.zone_wb_size == 0
    then f.device.link.write_buffer.remaining
    else (f.zone_write_buffer zid).remaining

-- A write is put off where its bytes find no room in the buffer, and else done.
abbrev pub Answers : ℕ → ZnsFtl → WriteCmd → Option Written → Type 0
Answers leaked f cmd none = room_of f (lba_to_zone f cmd.slba) < (cmd.length + 1) * 512
Answers leaked f cmd (some w) =
    ((cmd.length + 1) * 512 ≤ room_of f (lba_to_zone f cmd.slba))
    × IsDone leaked f (lba_to_zone f cmd.slba) (cmd.length + 1) w

-- The buffer grants all of the bytes where it has room for them, and else none.
granted_lem :
    (f : ZnsFtl) (zid n : ℕ)
    → 0 < n
    → n < 2 ^ 32
    → ((allocate_in (buffer_of f zid) f n).1 < n → room_of f zid < n)
      × (n ≤ (allocate_in (buffer_of f zid) f n).1 → n ≤ room_of f zid)
unfolding buffer_allocate
granted_lem f zid n pos small = ground (arith, pos, small)

is_success-success : (s : Status) → is_success s ≡ true → s ≡ success
is_success-success s e = ground (arith, e)

is_success-other : (s : Status) → is_success s ≡ false → s ≢ success
is_success-other s e h = cc

write_admit-IsFramed :
    (f : ZnsFtl) (zid slba nr_lba : ℕ) → IsFramed f (write_admit f zid slba nr_lba).0
unfolding write_admit
write_admit-IsFramed f zid slba nr_lba = ground arith

increase_write_ptr-IsFramed :
    (f : ZnsFtl) (zid nr_lba : ℕ) → IsFramed f (increase_write_ptr f zid nr_lba)
unfolding increase_write_ptr
increase_write_ptr-IsFramed f zid nr_lba = ground arith

allocate_in-IsWritten :
    (wb : WriteBuffer) (f : ZnsFtl) (n : ℕ)
    → Transfer.IsValid f.device
    → IsWritten f (allocate_in wb f n).0
allocate_in-IsWritten global_buffer f n v = record {
  params = refl;
  infos = refl;
  zones = refl;
  geometry = refl;
  valid = record {
    channels = v.channels;
    pcie = v.pcie;
    moves = v.moves;
    short = v.short;
    flash = v.flash;
  };
}
allocate_in-IsWritten (zone_buffer zid) f n v = record {
  params = refl;
  infos = refl;
  zones = refl;
  geometry = refl;
  valid = v;
}
allocate_in-IsWritten (zwra_buffer zid) f n v = record {
  params = refl;
  infos = refl;
  zones = refl;
  geometry = refl;
  valid = v;
}

-- A frame is enough to go on writing.
IsWritable-frame : (f g : ZnsFtl) → IsWritable f → IsFramed f g → IsWritable g
IsWritable-frame f g w k = record {
  striped = IsStriped-cong f g k.params (ap (λ (d : Device). d.ssd.sp) k.device) w.striped;
  valid = rw k.device w.valid;
  pages = rw k.device w.pages;
  sectors = rw k.device w.sectors;
  zones = rw k.params (rw k.device w.zones);
  bytes = rw k.device w.bytes;
  few_bytes = rw k.device w.few_bytes;
}

module _ (cpu_clock : ℕ → ℕ) where
  write_data-IsWritten :
      (f : ZnsFtl) (cmd : WriteCmd) (wb : WriteBuffer) (zid slba : ℕ)
      → IsWritable f
      → slba + cmd.length + 1 < 2 ^ 63
      → Returns
          (λ (w : Written). IsWritten f w.ftl × (w.status ≡ success) × (w.slba ≡ slba))
          (write_data cpu_clock f cmd wb zid slba)
  unfolding write_data ssd_advance_write_buffer
  write_data-IsWritten f cmd wb zid slba w small =
      let Q : Written → Type 0 = λ x. IsWritten f x.ftl × (x.status ≡ success) × (x.slba ≡ slba) in
      let spp = f.device.ssd.sp.secs_per_pg in
      let last = sub64 (u64 (slba + (cmd.length + 1))) 1 in
      let whole : last ≡ slba + cmd.length = omega (arith, small) in
      let le : slba / spp ≤ last / spp = div_mono slba last spp w.sectors (omega (arith, whole)) in
      let bound : last / spp ≤ last = div_le last spp w.sectors in
      Returns-bind (IsSent f.device.link _) Q _ _
        (ssd_advance_pcie-Returns cpu_clock f.device.link _ ((cmd.length + 1) * 512) w.valid.pcie)
        (λ (k, xfer) s.
          let g : ZnsFtl = record f { device = record (f.device) { link = k } } in
          let step : IsWritten f g = record {
            params = refl;
            infos = refl;
            zones = refl;
            geometry = refl;
            valid = record {
              channels = w.valid.channels;
              pcie = s.valid;
              moves = w.valid.moves;
              short = w.valid.short;
              flash = w.valid.flash;
            };
          } in
          Returns-bind (λ (h, t). IsWritten g h) Q _ _
            (write_loop-IsWritten cpu_clock (last / spp + 2 - slba / spp) g cmd wb (slba / spp)
              (last / spp) (zone_to_elpn f zid) xfer xfer (IsWritable-step f g w step)
              (omega (arith, bound, whole, small)) (omega (arith, le)) (omega (arith, le)))
            (λ (h, t) s'.
              let done : Q (record {
                ftl = h;
                status = success;
                nsecs_target = completion cpu_clock h cmd t xfer;
                slba = slba;
              }) =
                (IsWritten-trans f g h step s', refl, refl) in
              done))

-- The counts after the write pointer of a zone without a ZRWA has moved.
passed-IsAccounted :
    (leaked : ℕ) (g h : ZnsFtl) (zid nr_lba : ℕ)
    → (g.zone_descs zid).zrwav ≡ false
    → IsPassed leaked g zid nr_lba h
    → IsAccounted leaked h
passed-IsAccounted leaked g h zid nr_lba plain s =
    elim (ℕ_discrete (u64 ((g.zone_descs zid).wp + nr_lba)) (zone_limit g zid)) [
      | yes e ↦ subst (λ b. IsAccounted (leak b leaked) h) plain (s.filled e).1
      | no ne ↦ (s.partly ne).1
    ]

-- From the parts of a write that is accepted.
accepted :
    (leaked : ℕ) (f g h : ZnsFtl) (zid slba nr_lba : ℕ) (w : Written)
    → IsAdmitted leaked f zid slba (g, success)
    → (f.zone_descs zid).zrwav ≡ false
    → IsPassed leaked g zid nr_lba h
    → IsWritten h w.ftl
    → w.status ≡ success
    → w.slba ≡ slba
    → IsDone leaked f zid nr_lba w
accepted leaked f g h zid slba nr_lba w a plain s d es ea = record {
  counted =
      rw d.params (
        rw d.infos
          (rw d.zones (passed-IsAccounted leaked g h zid nr_lba (a.same_zrwav ∙ plain) s)));
  moved = λ e. (
    ea ∙ a.at_wp refl,
    ap (λ (z : ℕ → Zone). (z zid).wp) d.zones ∙ s.wp ∙ ap (λ t. u64 (t + nr_lba)) a.same_wp,
  );
  others = λ i ne. ap (λ (z : ℕ → Zone). z i) d.zones ∙ s.others i ne ∙ a.others i ne;
  refused = λ ne. absurd (ne es);
}

IsDone-cong :
    (leaked : ℕ) (f f' : ZnsFtl) (zid nr_lba : ℕ) (w : Written)
    → IsWritten f f'
    → IsDone leaked f' zid nr_lba w
    → IsDone leaked f zid nr_lba w
IsDone-cong leaked f f' zid nr_lba w s d = record {
  counted = d.counted;
  moved = λ e. (
    (d.moved e).0 ∙ ap (λ (z : ℕ → Zone). (z zid).wp) s.zones,
    (d.moved e).1 ∙ ap (λ (z : ℕ → Zone). u64 ((z zid).wp + nr_lba)) s.zones,
  );
  others = λ i ne. d.others i ne ∙ ap (λ (z : ℕ → Zone). z i) s.zones;
  refused = λ ne. ((d.refused ne).0 ∙ s.zones, (d.refused ne).1 ∙ s.infos);
}

-- A plain write of at most 2^16 sectors to an existing zone without a ZRWA returns, if the counts
-- agree, the device is valid, the zones are striped over whole groups of dies, no size that divides is
-- 0, a oneshot page has fewer than 2^31 bytes and the write ends below sector 2^63, also from the
-- write pointer on. It is put off where the bytes that its buffer has left are fewer than its own, and
-- only there. Else the counts still agree. If it succeeds, it has started at the write pointer, which
-- has moved by the sectors written, and no other zone has changed; if it is refused, no zone and no
-- count has changed.
pub zns_write_plain-Answers :
    (cpu_clock : ℕ → ℕ) (leaked : ℕ) (f : ZnsFtl) (cmd : WriteCmd)
    → IsWritable f
    → IsAccounted leaked f
    → lba_to_zone f cmd.slba < f.zp.nr_zones
    → (f.zone_descs (lba_to_zone f cmd.slba)).zrwav ≡ false
    → 0 < f.device.ssd.sp.write_unit_size
    → cmd.slba + cmd.length + 1 < 2 ^ 63
    → (f.zone_descs (lba_to_zone f cmd.slba)).wp + cmd.length + 1 < 2 ^ 63
    → cmd.length < 2 ^ 16
    → Returns (Answers leaked f cmd) (zns_write_plain cpu_clock f cmd)
unfolding zns_write_plain
zns_write_plain-Answers cpu_clock leaked f cmd w c p plain unit small small' len =
    let nr_lba = cmd.length + 1 in
    let zid = lba_to_zone f cmd.slba in
    let slba = if cmd.is_append then (f.zone_descs zid).wp else cmd.slba in
    let wb = buffer_of f zid in
    let f' = (allocate_in wb f (nr_lba * 512)).0 in
    let granted = (allocate_in wb f (nr_lba * 512)).1 in
    let a = allocate_in-IsWritten wb f (nr_lba * 512) w.valid in
    let w' = IsWritable-step f f' w a in
    let c' : IsAccounted leaked f' = rw a.params (rw a.infos (rw a.zones c)) in
    let g = (write_admit f' zid slba nr_lba).0 in
    let status = (write_admit f' zid slba nr_lba).1 in
    let p' : zid < f'.zp.nr_zones = rw a.params p in
    let d = write_admit-IsAdmitted leaked f' zid slba c' p' nr_lba in
    let kg = write_admit-IsFramed f' zid slba nr_lba in
    let pg : zid < g.zp.nr_zones = rw kg.params p' in
    let h = increase_write_ptr g zid nr_lba in
    let wh =
      IsWritable-frame g h (IsWritable-frame f' g w' kg)
        (increase_write_ptr-IsFramed g zid nr_lba) in
    let short : slba + cmd.length + 1 < 2 ^ 63 =
      if_cases (λ s. s + cmd.length + 1 < 2 ^ 63) cmd.is_append _ _ (λ e. small') (λ e. small) in
    let all_or_none = granted_lem f zid (nr_lba * 512) (omega arith) (omega (arith, len)) in
    let plain' : (f'.zone_descs zid).zrwav ≡ false = rw a.zones plain in
    let refused : Written = record {
      ftl = g;
      status = status;
      nsecs_target = cmd.nsecs_start;
      slba = slba;
    } in
    let written = write_data cpu_clock h cmd wb zid slba >>= λ x. ok (some x) in
    Returns-if (Answers leaked f cmd)
      (not (ltb zid f.zp.nr_zones) || f.device.ssd.sp.write_unit_size == 0) bug _
      (λ e. absurd (ground (arith, e, p, unit)))
      (λ e.
        Returns-if (Answers leaked f cmd) (ltb granted (nr_lba * 512)) (ok none)
          (if is_success status then written else ok (some refused))
          (λ e. all_or_none.0 (ltb→lt _ _ e))
          (λ e.
            let room = all_or_none.1 (ltb→le _ _ e) in
            Returns-if (Answers leaked f cmd) (is_success status) written (ok (some refused))
              (λ e.
                let es : status ≡ success = is_success-success status e in
                let d' : IsAdmitted leaked f' zid slba (g, success) =
                  subst (λ t. IsAdmitted leaked f' zid slba (g, t)) es d in
                let s =
                  increase_write_ptr-IsPassed leaked g zid nr_lba d.counted pg (d.opened es) in
                Returns-bind
                  (λ (x : Written). IsWritten h x.ftl × (x.status ≡ success) × (x.slba ≡ slba))
                  (Answers leaked f cmd) (write_data cpu_clock h cmd wb zid slba) _
                  (write_data-IsWritten cpu_clock h cmd wb zid slba wh short)
                  (λ x k. (
                    room,
                    IsDone-cong leaked f f' zid nr_lba x a
                        (accepted leaked f' g h zid slba nr_lba x d' plain' s k.0 k.1 k.2),
                  )))
              (λ e.
                let ne = is_success-other status e in
                (
                  room,
                  IsDone-cong leaked f f' zid nr_lba refused a (record {
                    counted = d.counted;
                    moved = λ es. absurd (ne es);
                    others = d.others;
                    refused = d.refused;
                  }),
                ))))
