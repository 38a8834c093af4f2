-- ===== src/IoxDummy/Tests.antt =====
-- The double at concrete inputs, over a ring buffer of the simplest kind.
use dtmc_base.Common.{
  ℕ, ◌+◌, ◌-◌, ◌≡◌, refl, List, [], ◌∷◌, ◌++◌, none, true, arith, length, take, drop, min,
}
use dtmc_base.IoxDummy.{Ringfifo, RingfifoLaws, IoxDummy}
use dtmc_base.IoxDummy.Device.{with_fifos}
use dtmc_base.IoxDummy.Streams.{send, receive, transfer, transfer-fifo}

-- The bytes, and the space for more.
abbrev pub queue : Ringfifo (List ℕ × ℕ)
queue = record {
  zeroed_fifo = ([], 0);
  fifo_init = λ q. (none, q);
  fifo_configure = λ q capacity. (none, ([], capacity));
  fifo_reset = λ q. ([], q.1 + length q.0);
  push = λ q bytes n. (min n q.1, (q.0 ++ take (min n q.1) bytes, q.1 - min n q.1));
  pop = λ q n. (min n (length q.0), take n q.0, (drop n q.0, q.1 + min n (length q.0)));
}

abbrev pub queue-Laws : RingfifoLaws queue
queue-Laws = record {
  contents = λ q. q.0;
  space = λ q. q.1;
  push-count = λ q bytes n l b. refl;
  push-contents = λ q bytes n l b. refl;
  push-space = λ q bytes n l b. omega arith;
  pop-count = λ q n b. refl;
  pop-bytes = λ q n b. refl;
  pop-contents = λ q n b. refl;
  pop-space = λ q n b. refl;
}

-- With space for a hundred bytes each way.
abbrev pub looped : IoxDummy (List ℕ × ℕ)
looped = record (with_fifos queue ([], 100) ([], 100)) { enabled = true }

transfer-fifo_example :
    let (sent, got, last) =
      transfer queue (send (1 ∷ 2 ∷ []) ∷ receive 1 ∷ send (3 ∷ []) ∷ receive 5 ∷ []) looped in
    ([] ++ sent ≡ got ++ queue-Laws.contents last.rx_fifo)
    × (length sent + queue-Laws.space last.tx_fifo ≡ 100)
unfolding transfer
transfer-fifo_example =
    transfer-fifo queue queue-Laws (send (1 ∷ 2 ∷ []) ∷ receive 1 ∷ send (3 ∷ []) ∷ receive 5 ∷ [])
      looped (omega arith, (omega arith, (omega arith, (omega arith, tt)))) (refl, omega arith)
