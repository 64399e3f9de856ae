-- ===== src/Conv/Write/Round.antt =====
-- A round of conv_write while there are credits: every instance stays able to write.
use dumping.Conv.Write.Healthy.{IsHealthy, IsAlike, IsGood-alike, set_ftl-IsHealthy, IsAlike-ssd}
use dumping.Conv.Pointer.{advance_user}
use dumping.Conv.Pqueue.{Pqueue, IsPqueue}
use dumping.Ssd.Nand.Advance.{
  cmd_start_keeps, IsAdvanced, ssd_advance_nand-IsAdvanced, writes, IsReached,
}
use dumping.Conv.Read.Live.{device_at}
use dumping.Conv.Gc.{nand, check_and_refill_write_credit, consume_write_credit}
use dumping.Conv.Write.Step.{IsStepped, write_page-IsStepped}
use dumping.Conv.Write.{ConvNs, program_wordline, set_ftl, ConvCmd, params, write_lpn, map_page}
use dumping.Ssd.Nand.Transfer
use dumping.Ssd.Ppa.{word, unmapped_ppa, Ppa}
use dumping.Base.{
  ℕ, false, List, ◌∷◌, some, ◌≡◌, ◌≢◌, ◌<◌, ◌≤◌, ◌*◌, ◌/◌, ◌%◌, refl, arith, tests, ◌^◌, u64, ◌==◌,
  update, update_same, update_other, ◌∙◌, ap, sym, subst, mod_lt, sub32,
}
use dumping.Base.Run.{ok, Returns, Returns-bind, Returns-if}
use dumping.Ssd.Nand.{nand_write, Link, Ssd, NandCmd, Device, cmd_start, ssd_advance_nand}
use dumping.Conv.Ftl.{ConvFtl, new_page, last_pg_in_wordline, WritePointer}

-- The namespace after a round for the logical page `lpn`.
pub record IsRound {Q : Type 0} (n : ConvNs Q) (lpn latest : ℕ) (y : ConvNs Q × ℕ) : Type 0 where
  pub healthy : IsHealthy y.0
  pub parts : y.0.nr_parts ≡ n.nr_parts
  pub later : latest ≤ y.1
  pub table :
      (y.0.ftls (lpn % n.nr_parts)).maptbl
      ≡ update
          (n.ftls (lpn % n.nr_parts)).maptbl
          (lpn / n.nr_parts)
          (new_page (n.ftls (lpn % n.nr_parts)).wp)
  pub others : (j : ℕ) → j ≢ lpn % n.nr_parts → y.0.ftls j ≡ n.ftls j

new_word : (w : WritePointer) → word (new_page w) ≢ word unmapped_ppa
new_word w e = absurd (omega (arith, e))

module _ {Q : Type 0} where
  -- What a programmed wordline leaves.
  record IsProgrammed (n : ConvNs Q) (i latest : ℕ) (y : ConvNs Q × ℕ) : Type 0 where
    healthy : IsHealthy y.0
    parts : y.0.nr_parts ≡ n.nr_parts
    later : latest ≤ y.1
    alike : IsAlike (n.ftls i) (y.0.ftls i)
    wfc : (y.0.ftls i).wfc ≡ (n.ftls i).wfc
    others : (j : ℕ) → j ≢ i → y.0.ftls j ≡ n.ftls j

  -- A credit is consumed after a wordline has been programmed.
  rounded :
      (n : ConvNs Q) (lpn latest : ℕ) (a : Ppa) (g : ConvFtl Q) (m : ConvNs Q) (t : ℕ)
      → lpn % n.nr_parts < n.nr_parts
      → IsStepped (n.ftls (lpn % n.nr_parts)) (lpn / n.nr_parts) a g
      → IsProgrammed (set_ftl n (lpn % n.nr_parts) g n.link) (lpn % n.nr_parts) latest (m, t)
      → IsRound n lpn latest (
        set_ftl m (lpn % n.nr_parts) (consume_write_credit (m.ftls (lpn % n.nr_parts))) m.link,
        t,
      )
  rounded n lpn latest a g m t lt s w =
      let i = lpn % n.nr_parts in
      let local = lpn / n.nr_parts in
      let f = n.ftls i in
      let x = consume_write_credit (m.ftls i) in
      let lt' : i < m.nr_parts = rw w.parts lt in
      let spent : IsAlike (m.ftls i) x = record {
        params = refl;
        blocks = refl;
        maptbl = refl;
        rmap = refl;
        lm = refl;
        wp = refl;
        page_counter = refl;
      } in
      record {
        healthy =
            set_ftl-IsHealthy m i x m.link w.healthy
              (IsGood-alike (m.ftls i) x spent (w.healthy.good i lt')) (w.healthy.valid i lt');
        parts = w.parts;
        later = w.later;
        table =
            ap (λ (y : ConvFtl Q). y.maptbl) (update_same m.ftls i x)
            ∙ w.alike.maptbl
            ∙ ap (λ (y : ConvFtl Q). y.maptbl) (update_same n.ftls i g)
            ∙ s.table
            ∙ ap (λ b. update f.maptbl local b) s.address;
        others =
            λ j ne. update_other m.ftls i x j ne ∙ w.others j ne ∙ update_other n.ftls i g j ne;
      }

  module _ (cpu_clock : ℕ → ℕ) (pq : Pqueue Q) where
    program_wordline-IsProgrammed :
        (n : ConvNs Q) (i : ℕ) (a : Ppa) (c : ConvCmd) (stime latest : ℕ)
        → IsHealthy n
        → i < n.nr_parts
        → IsReached (n.ftls i).ssd.sp a
        → word a ≢ word unmapped_ppa
        → Returns (IsProgrammed n i latest) (program_wordline cpu_clock pq n i a c stime latest)
    unfolding program_wordline nand
    program_wordline-IsProgrammed n i a c stime latest h lt ch mapped =
        let P : ConvNs Q × ℕ → Type 0 = IsProgrammed n i latest in
        let f = n.ftls i in
        let cmd : NandCmd = record {
          cmd = nand_write;
          xfer_size = u64 ((params n).pgsz * (params n).pgs_per_oneshotpg);
          stime = stime;
          interleave_pci_dma = false;
          ppa = a;
          arrive_time = some 0;
        } in
        let d : Device = device_at n i in
        let k = cmd_start_keeps cpu_clock d cmd in
        Returns-if P (last_pg_in_wordline f.ssd.sp a) _ (ok (n, latest))
          (λ e.
            Returns-bind
              (λ ((g, l, t) : ConvFtl Q × Link × ℕ).
                (s : Ssd) × (g ≡ record f { ssd = s })
                × (s.sp ≡ f.ssd.sp)
                × Transfer.IsValid (record { ssd = s; link = l }))
              P (nand cpu_clock f n.link cmd) _
              (Returns-bind
                (IsAdvanced (cmd_start cpu_clock d cmd).1 cmd (cmd_start cpu_clock d cmd).0)
                (λ ((g, l, t) : ConvFtl Q × Link × ℕ).
                  (s : Ssd) × (g ≡ record f { ssd = s })
                  × (s.sp ≡ f.ssd.sp)
                  × Transfer.IsValid (record { ssd = s; link = l }))
                (ssd_advance_nand cpu_clock d cmd) _
                (ssd_advance_nand-IsAdvanced cpu_clock d cmd (h.valid i lt) ch (writes refl) mapped)
                (λ o w. (
                  o.device.ssd,
                  refl,
                  w.kept.params ∙ ap (λ (s : Ssd). s.sp) k.0,
                  record {
                    channels = w.valid.channels;
                    pcie = w.valid.pcie;
                    moves = w.valid.moves;
                    short = w.valid.short;
                    flash = w.valid.flash;
                  },
                )))
              (λ (g, l, t) (s, eg, es, v).
                let like : IsAlike f g = subst (IsAlike f) (sym eg) (IsAlike-ssd f s es) in
                let q = set_ftl-IsHealthy n i g l h (IsGood-alike f g like (h.good i lt)) (
                  subst (λ (x : ConvFtl Q). Transfer.IsValid (record { ssd = x.ssd; link = l }))
                    (sym eg) v) in
                record {
                  healthy = record { parts = q.parts; good = q.good; valid = q.valid };
                  parts = refl;
                  later = omega arith;
                  alike = subst (IsAlike f) (sym (update_same n.ftls i g)) like;
                  wfc =
                      ap (λ (x : ConvFtl Q). x.wfc) (update_same n.ftls i g)
                      ∙ ap (λ (x : ConvFtl Q). x.wfc) eg;
                  others = λ j ne. update_other n.ftls i g j ne;
                }))
          (λ e. record {
            healthy = h;
            parts = refl;
            later = omega arith;
            alike = IsAlike-ssd f f.ssd refl;
            wfc = refl;
            others = λ j ne. refl;
          })

    -- With a credit to spare, nothing is collected.
    check_and_refill-credit :
        (f : ConvFtl Q) (k : Link)
        → 1 < f.wfc.write_credits
        → f.wfc.write_credits < 2 ^ 32
        → Returns
            (λ y. y ≡ (consume_write_credit f, k))
            (check_and_refill_write_credit cpu_clock pq (consume_write_credit f) k)
    unfolding check_and_refill_write_credit
    check_and_refill-credit f k more few =
        Returns-if (λ y. y ≡ (consume_write_credit f, k)) (sub32 f.wfc.write_credits 1 == 0) _ _
          (λ e. absurd (omega (tests, e, more, few))) (λ e. refl)

    -- A round of conv_write for a logical page of its instance, where every instance can write,
    -- the devices are valid, a blank line is free and the instance has more than one credit, raises
    -- no BUG. Every instance can write again and no device has become invalid; the page is mapped
    -- to the one at the write pointer, the other entries and instances are as before, and the
    -- latest time is no earlier.
    pub write_lpn-IsRound :
        (laws : IsPqueue Q pq) (n : ConvNs Q) (c : ConvCmd) (lpn stime latest : ℕ) (j : ℕ)
        (r : List ℕ)
        → IsHealthy n
        → lpn / n.nr_parts < (n.ftls (lpn % n.nr_parts)).ssd.sp.tt_pgs
        → (n.ftls (lpn % n.nr_parts)).lm.free_line_list ≡ j ∷ r
        → 1 < (n.ftls (lpn % n.nr_parts)).wfc.write_credits
        → (n.ftls (lpn % n.nr_parts)).wfc.write_credits < 2 ^ 32
        → Returns (IsRound n lpn latest) (write_lpn cpu_clock pq n c lpn stime latest)
    unfolding write_lpn
    write_lpn-IsRound laws n c lpn stime latest j r h exists list more few =
        let P : ConvNs Q × ℕ → Type 0 = IsRound n lpn latest in
        let i = lpn % n.nr_parts in
        let local = lpn / n.nr_parts in
        let f = n.ftls i in
        let lt : i < n.nr_parts = mod_lt lpn n.nr_parts h.parts in
        Returns-bind
          (λ ((g, a) : ConvFtl Q × Ppa). Returns (IsStepped f local a) (advance_user pq g)) P
          (map_page pq f local) _
          (write_page-IsStepped pq laws f local j r (h.good i lt) exists list)
          (λ (g, a) k. Returns-bind (IsStepped f local a) P (advance_user pq g) _ k (λ g' s.
            let m = set_ftl n i g' n.link in
            let at : update n.ftls i g' i ≡ g' = update_same n.ftls i g' in
            let wfc : (update n.ftls i g' i).wfc ≡ f.wfc =
              ap (λ (x : ConvFtl Q). x.wfc) at ∙ s.wfc in
            let q = set_ftl-IsHealthy n i g' n.link h s.good (
              subst (λ t. Transfer.IsValid (record { ssd = t; link = n.link })) (sym s.ssd)
                (h.valid i lt)) in
            Returns-bind (IsProgrammed m i latest) P
              (program_wordline cpu_clock pq m i a c stime latest) _
              (program_wordline-IsProgrammed m i a c stime latest q lt
                (subst (λ (x : ConvFtl Q). IsReached x.ssd.sp a) (sym at)
                  (rw s.ssd (record { ch = s.page.is_in.ch; lun = s.page.is_in.lun })))
                (subst (λ t. word t ≢ word unmapped_ppa) (sym s.address) (new_word f.wp)))
              (λ (m', t) w.
                Returns-bind (λ y. y ≡ (consume_write_credit (m'.ftls i), m'.link)) P
                  (check_and_refill_write_credit cpu_clock pq (consume_write_credit (m'.ftls i))
                    m'.link)
                  _
                  (check_and_refill-credit (m'.ftls i) m'.link (rw (w.wfc ∙ wfc) more)
                    (rw (w.wfc ∙ wfc) few))
                  (λ y e.
                    subst (λ (y : ConvFtl Q × Link). IsRound n lpn latest (set_ftl m' i y.0 y.1, t))
                      (sym e) (rounded n lpn latest a g' m' t lt s w)))))
