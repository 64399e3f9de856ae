-- ===== src/Conv/Tests.antt =====
-- The theorems on the conventional FTL at an instance of two chips with four lines, and a queue
-- that is a list of lines.
use dumping.Conv.Write.Healthy.{IsHealthy}
use dumping.Conv.Write.Round.{IsRound, write_lpn-IsRound}
use dumping.Conv.Pointer.Fill.{IsSmall}
use dumping.Conv.Pointer.Advance.{IsBlank, IsOpen}
use dumping.Conv.Read.{conv_read}
use dumping.Conv.Pointer.{find_room}
use dumping.Conv.Init.{ssd_init_blocks, conv_init_ftl}
use dumping.Conv.Read.Total.{IsAnswered, conv_read-IsAnswered}
use dumping.Conv.Init.Fresh.{IsFresh, blank-IsCounted, conv_init_ftl-IsFresh}
use dumping.Conv.Pages.{mark_page_invalid}
use dumping.Conv.Pages.Count.{validated, validated-IsBlock}
use dumping.Conv.Write.Page.{IsRemapped, map_page-IsRemapped}
use dumping.Conv.Pointer.Search.{IsFound, find_room-IsFound}
use dumping.Conv.Pages.Counted.{IsPage, IsCounted, IsCounted-set, page-IsBlock}
use dumping.Ssd.Tests.{small_config, device_of, device-IsValid}
use dumping.Conv.Read.Live.{IsLive}
use dumping.Conv.Write.{ConvNs, ConvCmd, map_page, write_lpn}
use dumping.Conv.Pages.Invalid.{IsInvalidated, mark_page_invalid-IsInvalidated}
use dumping.Conv.Write.Place.{IsMapped}
use dumping.Conv.Index.{IsSame, IsShaped, ppa2pgidx_inj}
use dumping.Ssd.Ppa.{Ppa, zero_ppa, unmapped_ppa}
use dumping.Ssd.Params.{SsdParams, params_of}
use dumping.Conv.Pqueue.{Pqueue, IsPqueue}
use dumping.Base.{
  ℕ, Bool, true, false, Option, some, none, List, [], ◌∷◌, ◌≡◌, ◌<◌, ◌*◌, refl, arith, update,
  subst, ◌==◌, if◌then◌else◌,
}
use dumping.Base.Run.{Returns}
use dumping.Conv.Ftl.{ConvFtl, NandBlock, set_blk, new_page, ppa2pgidx, invalid_lpn}

-- The queue: the last line inserted is at the head, and every queued line has position 1.
abbrev elem : ℕ → List ℕ → Bool
elem i [] = false
elem i (j ∷ js) = if j == i then true else elem i js

abbrev without : ℕ → List ℕ → List ℕ
without i [] = []
without i (j ∷ js) = let rest = without i js in if j == i then rest else j ∷ rest

abbrev head_of : List ℕ → Option ℕ
head_of [] = none
head_of (j ∷ js) = some j

abbrev popped : List ℕ → List ℕ
popped [] = []
popped (j ∷ js) = without j js

abbrev list_queue : Pqueue (List ℕ)
list_queue = record {
  empty = [];
  has = λ q i. elem i q;
  insert = λ q ls d. (d ∷ q, update ls d (record (ls d) { pos = 1 }));
  change_priority = λ q ls pri d. (q, update ls d (record (ls d) { vpc = pri }));
  pop = λ q ls. (popped q, ls);
  peek = λ q. head_of q;
}

elem-without :
    (d : ℕ) (q : List ℕ) (i : ℕ) → elem i (without d q) ≡ (if d == i then false else elem i q)
elem-without d [] i = ground arith
elem-without d (j ∷ q) i = ground (arith, elem-without d q i)

some_inj : (j d : ℕ) → some j ≡ some d → j ≡ d
some_inj j d e = cc

elem-again :
    (j : ℕ) (q : List ℕ) (i : ℕ)
    → elem i (without j q) ≡ (if j == i then false else if j == i then true else elem i q)
elem-again j q i = ground (arith, elem-without j q i)

elem-popped :
    (q : List ℕ) (d i : ℕ)
    → head_of q ≡ some d
    → elem i (popped q) ≡ (if d == i then false else elem i q)
elem-popped [] d i e = cc
elem-popped (j ∷ q) d i e =
    subst
      (λ x. elem i (without j q) ≡ (if x == i then false else if j == i then true else elem i q))
      (some_inj j d e) (elem-again j q i)

peeked : (q : List ℕ) (d : ℕ) → head_of q ≡ some d → elem d q ≡ true
peeked [] d e = cc
peeked (j ∷ q) d e = ground (arith, some_inj j d e)

peeked_none : (q : List ℕ) (i : ℕ) → head_of q ≡ none → elem i q ≡ false
peeked_none [] i e = refl
peeked_none (j ∷ q) i e = cc

list_queue-IsPqueue : IsPqueue (List ℕ) list_queue
list_queue-IsPqueue = record {
  has-empty = λ i. refl;
  has-insert = λ q ls d i. refl;
  insert_moves = λ q ls d i. record { id = ground arith; ipc = ground arith; vpc = ground arith };
  insert_pos = λ q ls d. ground arith;
  insert_others = λ q ls d i h pos. ground (arith, pos);
  insert_out = λ q ls d i ne h. ground (arith, ne);
  has-change = λ q ls pri d i. refl;
  change_moves = λ q ls pri d i. record { id = refl; ipc = refl; vpc = refl };
  change_pos = λ q ls pri d i h pos. ground (arith, pos);
  change_out = λ q ls pri d i h out. ground arith;
  peek_has = λ q d e. peeked q d e;
  peek_none = λ q i e. peeked_none q i e;
  has-pop = λ q ls d i e. elem-popped q d i e;
  pop_moves = λ q ls i. record { id = refl; ipc = refl; vpc = refl };
  pop_pos = λ q ls i h pos. pos;
  pop_out = λ q ls i h. refl;
}

abbrev small_params : SsdParams
small_params = params_of small_config 2 196608 4

-- A new instance: line 0 is for host writes, line 1 for the collector.
abbrev new_ftl : ConvFtl (List ℕ)
new_ftl = record {
  ssd = (device_of small_params).ssd;
  blocks = ssd_init_blocks;
  cp = record {
    gc_thres_lines = 2;
    gc_thres_lines_high = 2;
    enable_gc_delay = true;
    pba_pcent = 107;
  };
  maptbl = λ i. unmapped_ppa;
  rmap = λ i. invalid_lpn;
  wp = record { curline = 0; ch = 0; lun = 0; pg = 0; blk = 0; pl = 0 };
  gc_wp = record { curline = 1; ch = 0; lun = 0; pg = 0; blk = 1; pl = 0 };
  lm = record {
    lines = λ i. record { id = i; ipc = 0; vpc = 0; pos = 0 };
    free_line_list = 2 ∷ 3 ∷ [];
    victim_line_pq = [];
    full_line_list = [];
    tt_lines = 4;
    free_line_cnt = 2;
    victim_line_cnt = 0;
    full_line_cnt = 0;
  };
  wfc = record { write_credits = 96; credits_to_refill = 96 };
  page_counter = λ i. 0;
}

small_params-IsShaped : IsShaped small_params
unfolding params_of
small_params-IsShaped = record { plane = refl; lun = refl; ch = refl; all = refl; line = refl }

-- Page 3 of block 0 on the die of channel 1.
abbrev some_page : Ppa
some_page = record (zero_ppa) { pg = 3; ch = 1 }

some_page-IsPage : IsPage small_params some_page
unfolding params_of
some_page-IsPage = record {
  is_in = record {
    ch = omega arith;
    lun = omega arith;
    pl = omega arith;
    blk = omega arith;
    pg = omega arith;
  };
  plane = refl;
}

new_page-IsPage : IsPage small_params (new_page new_ftl.wp)
unfolding params_of
new_page-IsPage = record {
  is_in = record {
    ch = omega arith;
    lun = omega arith;
    pl = omega arith;
    blk = omega arith;
    pg = omega arith;
  };
  plane = refl;
}

ppa2pgidx_inj_example :
    Returns
      (λ i.
        (i < small_params.tt_pgs)
        × Returns (λ j. i ≡ j → IsSame some_page zero_ppa) (ppa2pgidx new_ftl zero_ppa))
      (ppa2pgidx new_ftl some_page)
ppa2pgidx_inj_example =
    ppa2pgidx_inj new_ftl some_page zero_ppa small_params-IsShaped some_page-IsPage.is_in
      new_page-IsPage.is_in

-- Both chips of the device are in the search, one of them full.
abbrev counters : ℕ → ℕ
counters i = if i == 0 then 48 else 12

find_room-IsFound_example :
    Returns (IsFound small_params counters) (find_room 2 small_params counters 0 0 0 0)
unfolding params_of
find_room-IsFound_example =
    find_room-IsFound small_params counters 0 0 (record { chs = omega arith; luns = omega arith })
      (omega arith, omega arith)

new_ftl-IsCounted : IsCounted small_params ssd_init_blocks new_ftl.lm.lines
new_ftl-IsCounted = blank-IsCounted small_params new_ftl.lm.lines (λ i h. refl)

new_ftl-IsMapped : IsMapped new_ftl
new_ftl-IsMapped lpn lt e = cc

map_page-IsRemapped_example :
    Returns
      (λ ((g, a) : ConvFtl (List ℕ) × Ppa). IsRemapped new_ftl 5 g a)
      (map_page list_queue new_ftl 5)
unfolding params_of
map_page-IsRemapped_example =
    map_page-IsRemapped list_queue list_queue-IsPqueue new_ftl 5 small_params-IsShaped
      new_ftl-IsCounted new_ftl-IsMapped (record { page = new_page-IsPage; free = refl })
      (omega arith)

-- The new instance with some page valid.
abbrev one_block : NandBlock
one_block = validated (ssd_init_blocks 1 0 0 0) 3

abbrev one_page : ConvFtl (List ℕ)
one_page = record (new_ftl) {
  blocks = set_blk ssd_init_blocks some_page one_block;
  lm = record (new_ftl.lm) {
    lines = update new_ftl.lm.lines 0 (record { id = 0; ipc = 0; vpc = 1; pos = 0 });
  };
}

one_page-IsCounted : IsCounted small_params one_page.blocks one_page.lm.lines
unfolding params_of
one_page-IsCounted =
    IsCounted-set small_params ssd_init_blocks new_ftl.lm.lines one_page.lm.lines some_page
      one_block new_ftl-IsCounted some_page-IsPage
      (validated-IsBlock 48 (ssd_init_blocks 1 0 0 0) 3
        (page-IsBlock small_params ssd_init_blocks new_ftl.lm.lines some_page new_ftl-IsCounted
          some_page-IsPage)
        (omega arith) refl)
      (record { vpc = refl; ipc = refl; others = λ k ne. (ground (arith, ne), ground (arith, ne)) })

mark_page_invalid-IsInvalidated_example :
    Returns (IsInvalidated one_page some_page) (mark_page_invalid list_queue one_page some_page)
mark_page_invalid-IsInvalidated_example =
    mark_page_invalid-IsInvalidated list_queue list_queue-IsPqueue one_page some_page
      small_params-IsShaped one_page-IsCounted some_page-IsPage refl

conv_init_ftl-IsFresh_example :
    Returns (IsFresh (device_of small_params).ssd) (conv_init_ftl list_queue new_ftl new_ftl.cp)
unfolding params_of
conv_init_ftl-IsFresh_example =
    conv_init_ftl-IsFresh list_queue new_ftl new_ftl.cp
      (record {
        lines = refl;
        two = omega arith;
        few = omega arith;
        chs = omega arith;
        luns = omega arith;
        pls = omega arith;
        pgs = omega arith;
        all = omega arith;
      })
      refl

-- A namespace of the new instance alone, and a read of its first sectors.
abbrev small_ns : ConvNs (List ℕ)
small_ns = record {
  ftls = λ i. new_ftl;
  nr_parts = 1;
  link = (device_of small_params).link;
  stats = record {
    prev_lpn = 0;
    total_writes = 0;
    sequential_writes = 0;
    large_jump_writes = 0;
    lpn_delta_sum = 0;
    start = 0;
  };
  queueing_wait = 0;
  scheduled = [];
}

abbrev first_sectors : ConvCmd
first_sectors = record { slba = 8; length = 15; fua = false; sq_id = 1; nsecs_start = 1000 }

small_ns-IsLive : IsLive small_ns
unfolding params_of
small_ns-IsLive = record {
  cells = omega arith;
  parts = omega arith;
  same = λ i h. refl;
  mapped = λ i h. new_ftl-IsMapped;
  valid = λ i h. device-IsValid;
}

conv_read-IsAnswered_example :
    Returns (IsAnswered small_ns first_sectors) (conv_read (λ n. 100 * n) small_ns first_sectors)
unfolding params_of
conv_read-IsAnswered_example =
    conv_read-IsAnswered (λ n. 100 * n) small_ns first_sectors small_ns-IsLive (omega arith)
      (omega arith) (omega arith)

-- The new instance can write: lines 2 and 3 are blank.
fresh_line : (i : ℕ) → i < 4 → 1 < i → IsBlank small_params ssd_init_blocks new_ftl.lm.lines 0 i
unfolding params_of
fresh_line i h k = record {
  exists = omega (arith, h);
  id = refl;
  other = λ e. absurd (omega (arith, e, k));
  blank = λ x j hx hj. refl;
}

new_ftl-IsOpen : IsOpen new_ftl
unfolding params_of
new_ftl-IsOpen = record {
  chip = (omega arith, omega arith);
  exists = omega arith;
  curline = refl;
  plane = refl;
  page = refl;
  room = omega arith;
  fill = record {
    bound = λ x h. omega arith;
    free = λ x j h ge lt. refl;
    used = λ x j h lt. absurd (omega (arith, lt));
  };
  stock = (
    fresh_line 2 (omega arith) (omega arith),
    ((λ e. absurd (omega (arith, e))), tt),
    (fresh_line 3 (omega arith) (omega arith), tt, tt),
  );
}

small_params-IsSmall : IsSmall small_params
unfolding params_of
small_params-IsSmall = record {
  chs = omega arith;
  luns = omega arith;
  blks = omega arith;
  pgs = omega arith;
  some_chs = omega arith;
  some_luns = omega arith;
  some_pls = omega arith;
  some_pgs = omega arith;
  whole = refl;
}

small_ns-IsHealthy : IsHealthy small_ns
small_ns-IsHealthy = record {
  parts = omega arith;
  good = λ i h. record {
    small = small_params-IsSmall;
    shaped = small_params-IsShaped;
    counted = new_ftl-IsCounted;
    mapped = new_ftl-IsMapped;
    opened = new_ftl-IsOpen;
  };
  valid = λ i h. device-IsValid;
}

write_lpn-IsRound_example :
    Returns
      (IsRound small_ns 5 2000)
      (write_lpn (λ n. 100 * n) list_queue small_ns first_sectors 5 1500 2000)
unfolding params_of
write_lpn-IsRound_example =
    write_lpn-IsRound (λ n. 100 * n) list_queue list_queue-IsPqueue small_ns first_sectors 5 1500
      2000 2 (3 ∷ []) small_ns-IsHealthy (omega arith) refl (omega arith) (omega arith)
