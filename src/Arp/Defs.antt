-- ===== src/Arp/Defs.antt =====
-- `arp_request` of kernel/drivers/arp.c. Packets are bytes by index. The network card is a parameter: whether it
-- takes the request, and what each call of `e1000_recv` returns, the number of bytes and the bytes
-- themselves, a negative number being at least 2^31.
use flyos.Base.{
  ℕ, zero, suc, ◌+◌, ◌-◌, ◌*◌, ◌/◌, ◌%◌, ◌^◌, Bool, ◌&&◌, ◌||◌, not, Option, none, some, ltb, leb,
  ◌==◌, if◌then◌else◌,
}

abbrev pub Packet : Type 0
Packet = ℕ → ℕ

abbrev pub put8 : (at v : ℕ) → Packet → Packet
put8 at v p i = if at == i then v % 2 ^ 8 else p i

unfoldable pub put16 : (at v : ℕ) → Packet → Packet
put16 at v p = put8 (at + 1) v (put8 at (v / 2 ^ 8) p)

unfoldable pub put32 : (at v : ℕ) → Packet → Packet
put32 at v p =
    put8 (at + 3) v
      (put8 (at + 2) (v / 2 ^ 8) (put8 (at + 1) (v / 2 ^ 16) (put8 at (v / 2 ^ 24) p)))

abbrev pub get16 : (at : ℕ) → Packet → ℕ
get16 at p = p at * 2 ^ 8 + p (at + 1)

abbrev pub get32 : (at : ℕ) → Packet → ℕ
get32 at p = p at * 2 ^ 24 + p (at + 1) * 2 ^ 16 + p (at + 2) * 2 ^ 8 + p (at + 3)

-- `for (int i = 0; i < 6; i++) pkt[at + i] = mac[i];`
abbrev pub put_mac : (at : ℕ) → (ℕ → ℕ) → Packet → Packet
put_mac at mac p i = if leb at i && ltb i (at + 6) then mac (i - at) else p i

-- The packet that is sent, on what the stack held before.
unfoldable pub request : (our_mac : ℕ → ℕ) (our_ip target_ip : ℕ) → Packet → Packet
unfolding put16 put32
request our_mac our_ip target_ip pkt0 =
    let ether = put16 12 0x0806 (put_mac 6 our_mac (put_mac 0 (λ i. 0xFF) pkt0)) in
    let header = put16 20 1 (put8 19 4 (put8 18 6 (put16 16 0x0800 (put16 14 1 ether)))) in
    put32 38 target_ip (put_mac 32 (λ i. 0) (put32 28 our_ip (put_mac 22 our_mac header)))

-- The tests on a packet of `n` bytes.
unfoldable pub is_reply : (target_ip n : ℕ) → Packet → Bool
is_reply target_ip n p =
    not (leb (2 ^ 31) n || ltb n 42)
    && (get16 12 p == 0x0806)
    && (get16 20 p == 2)
    && (get32 28 p == target_ip)

-- The loop, with `t` rounds to go, from the call number `k` of `e1000_recv` on; the address of the sender.
unfoldable pub wait_reply : (recv : ℕ → ℕ × Packet) (target_ip : ℕ) (t k : ℕ) → Option (ℕ → ℕ)
wait_reply recv target_ip zero k = none
wait_reply recv target_ip (suc t) k =
    let (n, p) = recv k in
    let rest = wait_reply recv target_ip t (k + 1) in
    if is_reply target_ip n p then some (λ i. p (22 + i)) else rest

abbrev pub rounds : ℕ
rounds = 1000000

-- `none` for -1, else the first six bytes of `out_mac`.
unfoldable pub arp_request :
    (send : Packet → Bool) (recv : ℕ → ℕ × Packet) (our_mac : ℕ → ℕ) (our_ip target_ip : ℕ)
    → Packet
    → Option (ℕ → ℕ)
arp_request send recv our_mac our_ip target_ip pkt0 =
    if send (request our_mac our_ip target_ip pkt0)
    then wait_reply recv target_ip rounds 0
    else none
