-- ===== src/Request/Serial.antt =====
-- The serial numbers that successive requests get.
use melsec_mc.Prelude.{ℕ, zero, suc, ◌+◌, ◌-◌, ◌%◌, ◌≤◌, ◌≡◌, ◌↔◌, arith}
use melsec_mc.Request.{next_serial, bumped}

-- The counter after `n` calls, and what the next call returns.
abbrev pub counter_after : ℕ → ℕ → ℕ
counter_after c zero = c
counter_after c (suc n) = (next_serial (counter_after c n)).1

abbrev pub serial_after : ℕ → ℕ → ℕ
serial_after c n = (next_serial (counter_after c n)).0

pub next_serial-range :
    (c : ℕ)
    → 1 ≤ c
    → c ≤ 65535
    → ((next_serial c).0 ≡ c % 65535 + 1) × ((next_serial c).1 ≡ c % 65535 + 1)
unfolding next_serial bumped
next_serial-range c h k = ground arith

counter_after_lem : (c n : ℕ) → 1 ≤ c → c ≤ 65535 → counter_after c n ≡ (c - 1 + n) % 65535 + 1
counter_after_lem c zero h k = omega arith
counter_after_lem c (suc n) h k =
    let ih = counter_after_lem c n h k in
    let step = next_serial-range (counter_after c n) (omega arith) (omega arith) in omega arith

-- The n-th serial number after counter value `c`.
serial_after_lem : (c n : ℕ) → 1 ≤ c → c ≤ 65535 → serial_after c n ≡ (c + n) % 65535 + 1
serial_after_lem c n h k =
    let ih = counter_after_lem c n h k in
    let step = next_serial-range (counter_after c n) (omega arith) (omega arith) in omega arith

-- From a counter in 1 to 65535, as the initial one is, every serial number is in 1 to 65535 (so
-- never 0, which the transport takes for "accept any"), and two requests have the same serial
-- number exactly if the number of calls between them is a multiple of 65535.
pub serial_period :
    (c i d : ℕ)
    → 1 ≤ c
    → c ≤ 65535
    → (1 ≤ serial_after c i)
      × (serial_after c i ≤ 65535)
      × ((serial_after c i ≡ serial_after c (i + d)) ↔ (d % 65535 ≡ 0))
serial_period c i d h k =
    let here = serial_after_lem c i h k in
    let there = serial_after_lem c (i + d) h k in
    (omega arith, omega arith, (λ e. omega arith, λ e. omega arith))
