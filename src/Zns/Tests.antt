-- ===== src/Zns/Tests.antt =====
-- The theorems on the zoned namespace at a namespace of eight zones of 192 sectors.
use dumping.Ssd.Ppa.{Ppa}
use dumping.Zns.Read.{zns_read}
use dumping.Zns.Read.Total.{IsRead, zns_read-IsRead}
use dumping.Zns.Write.Total.{Answers, zns_write_plain-Answers}
use dumping.Zns.Write.Loop.{IsWritable}
use dumping.Zns.Write.Pointer.{IsPassed, increase_write_ptr-IsPassed}
use dumping.Zns.Mgmt.Open.{open_zone_cmd-IsAccounted}
use dumping.Zns.Write.{write_admit, increase_write_ptr, WriteCmd, zns_write_plain}
use dumping.Zns.Mgmt.{open_zone_cmd}
use dumping.Zns.Counts.{IsAccounted}
use dumping.Zns.Write.Admit.{IsAdmitted, write_admit-IsAdmitted}
use dumping.Zns.Address.Stripe.{IsStriped, lpn_to_ppa_bound}
use dumping.Zns.Send.Conforms.{send_action-Follows}
use dumping.Zns.Send.Machine.{Follows}
use dumping.Zns.Address.{lba_to_zone, lpn_to_ppa, lpn_to_zone}
use dumping.Zns.Init.{
  zns_init_ftl, zns_init_ftl-IsReady, zns_init_params, zns_init_params_lem, zslba_after,
}
use dumping.Zns.Send.Total.{IsReady, zns_zmgmt_send-IsReady}
use dumping.Ssd.Params.{params_of}
use dumping.Ssd.Nand.{Device}
use dumping.Base.{refl, true, false, ◌*◌, ◌≡◌, ◌/◌, arith, ◌<◌}
use dumping.Base.Run.{Returns}
use dumping.Ssd.Tests.{small_config, device_of, device-IsValid}
use dumping.Zns.Ftl.{ZnsParams, ZnsFtl}
use dumping.Zns.Send.{SendCmd, zsa_open_zone, zsa_reset_zone, Sent, zns_zmgmt_send, send_action}

abbrev small_zns : ZnsParams
small_zns = record {
  nr_zones = 8;
  nr_active_zones = 8;
  nr_open_zones = 8;
  dies_per_zone = 2;
  zone_size = 98304;
  zone_wb_size = 98304;
  nr_zrwa_zones = 1;
  zrwafg_size = 4096;
  zrwa_size = 8192;
  zrwa_buffer_size = 16384;
  lbas_per_zrwafg = 8;
  lbas_per_zrwa = 16;
}

abbrev small_device : Device
small_device = device_of (params_of small_config 2 196608 4)

zns_init_params_lem_example :
    Returns
      (λ (p : ZnsParams).
        (p.nr_zones * p.zone_size ≡ 786432)
        × (p.lbas_per_zrwa ≡ 8192 / (params_of small_config 2 196608 4).secsz)
        × (p.lbas_per_zrwafg ≡ 4096 / (params_of small_config 2 196608 4).secsz))
      (zns_init_params small_zns (params_of small_config 2 196608 4) 786432 small_config.zns)
unfolding params_of
zns_init_params_lem_example =
    zns_init_params_lem small_zns (params_of small_config 2 196608 4) 786432 small_config.zns
      (omega arith) (omega arith) (omega arith) (omega arith) refl refl (omega arith)

zns_init_ftl-IsReady_example : IsReady 0 (zns_init_ftl small_zns small_device (λ a. 255))
unfolding params_of
zns_init_ftl-IsReady_example =
    zns_init_ftl-IsReady small_zns small_device (λ a. 255) (omega arith) (omega arith) (omega arith)
      (omega arith) (omega arith)

small_ftl-IsReady : IsReady 0 (zns_init_ftl small_zns small_device (λ a. 255))
unfolding params_of
small_ftl-IsReady =
    zns_init_ftl-IsReady small_zns small_device (λ a. 255) (omega arith) (omega arith) (omega arith)
      (omega arith) (omega arith)

small_ftl-IsStriped : IsStriped (zns_init_ftl small_zns small_device (λ a. 255))
unfolding params_of zns_init_ftl
small_ftl-IsStriped = record {
  groups = 1;
  whole = refl;
  some = omega arith;
  dies = omega arith;
  luns = refl;
  chs = omega arith;
  chs_fit = omega arith;
  luns_fit = omega arith;
  dies_fit = omega arith;
  zone = omega arith;
  oneshot = omega arith;
}

-- Opening the zone that sector 200 is in, with a ZRWA; resetting all zones.
abbrev open_cmd : SendCmd
open_cmd = record {
  zsa = zsa_open_zone;
  select_all = false;
  zsaso = true;
  slba = 200;
  length = 7;
  nsecs_start = 1000;
}

abbrev reset_all : SendCmd
reset_all = record (open_cmd) { zsa = zsa_reset_zone; select_all = true }

zns_zmgmt_send-IsReady_example :
    Returns
      (λ (s : Sent). IsReady 0 s.ftl)
      (zns_zmgmt_send (λ n. 100 * n) (zns_init_ftl small_zns small_device (λ a. 255)) reset_all)
unfolding params_of zns_init_ftl lba_to_zone
zns_zmgmt_send-IsReady_example =
    zns_zmgmt_send-IsReady (λ n. 100 * n) 0 (zns_init_ftl small_zns small_device (λ a. 255))
      reset_all small_ftl-IsReady small_ftl-IsStriped tt (omega arith) (omega arith) (omega arith)

send_action-Follows_example :
    Returns
      (λ (g, s, t).
        Follows zsa_open_zone
          (zns_init_ftl small_zns small_device (λ a. 255))
          (lba_to_zone (zns_init_ftl small_zns small_device (λ a. 255)) 200)
          (g, s))
      (send_action
        (λ n. 100 * n)
        zsa_open_zone
        (zns_init_ftl small_zns small_device (λ a. 255))
        open_cmd
        200
        1000)
unfolding params_of zns_init_ftl lba_to_zone
send_action-Follows_example =
    send_action-Follows (λ n. 100 * n) 0 zsa_open_zone
      (zns_init_ftl small_zns small_device (λ a. 255)) open_cmd 200 1000 tt small_ftl-IsReady
      small_ftl-IsStriped (omega arith) (omega arith)

lpn_to_ppa_bound_example :
    Returns
      (λ (a : Ppa). (a.ch < 2) × (a.lun < 1))
      (lpn_to_ppa (zns_init_ftl small_zns small_device (λ a. 255)) 37)
unfolding params_of zns_init_ftl
lpn_to_ppa_bound_example =
    lpn_to_ppa_bound (zns_init_ftl small_zns small_device (λ a. 255)) 37 small_ftl-IsStriped

write_admit-IsAdmitted_example :
    IsAdmitted 0
      (zns_init_ftl small_zns small_device (λ a. 255))
      1
      192
      (write_admit (zns_init_ftl small_zns small_device (λ a. 255)) 1 192 8)
unfolding zns_init_ftl
write_admit-IsAdmitted_example =
    write_admit-IsAdmitted 0 (zns_init_ftl small_zns small_device (λ a. 255)) 1 192
      small_ftl-IsReady.counted (omega arith) 8

-- The namespace with its zone 1 open, with a ZRWA.
abbrev open_ftl : ZnsFtl
open_ftl = (open_zone_cmd (zns_init_ftl small_zns small_device (λ a. 255)) 1 true).0

open_ftl-IsAccounted : IsAccounted 0 open_ftl
unfolding zns_init_ftl
open_ftl-IsAccounted =
    open_zone_cmd-IsAccounted 0 (zns_init_ftl small_zns small_device (λ a. 255)) 1
      small_ftl-IsReady.counted (omega arith) true

increase_write_ptr-IsPassed_example : IsPassed 0 open_ftl 1 192 (increase_write_ptr open_ftl 1 192)
unfolding zns_init_ftl open_zone_cmd params_of
increase_write_ptr-IsPassed_example =
    increase_write_ptr-IsPassed 0 open_ftl 1 192 open_ftl-IsAccounted (omega arith) refl

abbrev write_cmd : WriteCmd
write_cmd = record {
  is_append = false;
  slba = 192;
  length = 95;
  fua = false;
  sq_id = 1;
  nsecs_start = 1000;
}

small_ftl-IsWritable : IsWritable (zns_init_ftl small_zns small_device (λ a. 255))
unfolding params_of zns_init_ftl
small_ftl-IsWritable = record {
  striped = small_ftl-IsStriped;
  valid = device-IsValid;
  pages = omega arith;
  sectors = omega arith;
  zones = omega arith;
  bytes = omega arith;
  few_bytes = omega arith;
}

zns_write_plain-Answers_example :
    Returns
      (Answers 0 (zns_init_ftl small_zns small_device (λ a. 255)) write_cmd)
      (zns_write_plain (λ n. 100 * n) (zns_init_ftl small_zns small_device (λ a. 255)) write_cmd)
unfolding params_of zns_init_ftl lba_to_zone zslba_after
zns_write_plain-Answers_example =
    zns_write_plain-Answers (λ n. 100 * n) 0 (zns_init_ftl small_zns small_device (λ a. 255))
      write_cmd small_ftl-IsWritable small_ftl-IsReady.counted (omega arith) refl (omega arith)
      (omega arith) (omega arith) (omega arith)

-- A read of the first eight sectors of zone 1.
zns_read-IsRead_example :
    Returns
      (IsRead
        (zns_init_ftl small_zns small_device (λ a. 255))
        (record { slba = 192; length = 7; nsecs_start = 1000 }))
      (zns_read
        (λ n. 100 * n)
        (zns_init_ftl small_zns small_device (λ a. 255))
        (record { slba = 192; length = 7; nsecs_start = 1000 }))
unfolding params_of zns_init_ftl lpn_to_zone
zns_read-IsRead_example =
    zns_read-IsRead (λ n. 100 * n) (zns_init_ftl small_zns small_device (λ a. 255))
      (record { slba = 192; length = 7; nsecs_start = 1000 })
      (record {
        writable = small_ftl-IsWritable;
        pages = omega arith;
        bytes = omega arith;
        fits = omega arith;
        cells = omega arith;
      })
      (omega arith) (omega arith) (omega arith) (omega arith)
