-- ===== src/Arp/Tests.antt =====
-- A card that takes the request, and then gives nothing, a foreign packet and a reply.
use flyos.Base.{ℕ, ◌+◌, ◌≡◌, refl, ◌==◌, if◌then◌else◌, some}
use flyos.Arp.Defs.{Packet, put16, put32, is_reply, wait_reply}

abbrev mac : ℕ → ℕ
mac i = 82 + i

abbrev reply : Packet
unfolding put16 put32
reply = put32 28 0x0A000202 (put16 20 2 (put16 12 0x0806 (λ i. 7)))

abbrev recv : ℕ → ℕ × Packet
recv k = if k == 0 then (0, λ i. 0) else if k == 1 then (60, λ i. 1) else (60, reply)

reply_runs : wait_reply recv 0x0A000202 5 0 ≡ some (λ i. reply (22 + i))
unfolding wait_reply is_reply put16 put32
reply_runs = refl
