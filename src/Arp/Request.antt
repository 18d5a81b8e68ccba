-- ===== src/Arp/Request.antt =====
-- What `arp_request` sends, and which answer it takes.
use flyos.Base.{ℕ, ◌+◌, ◌<◌, ◌≡◌, Bool, false}
use flyos.Arp.Defs.{Packet, get16, get32, is_reply}

-- The packet that is sent, all its 42 bytes: a broadcast from our address, of the type of ARP, for IPv4 on Ethernet,
-- with the operation of a request, both addresses where a receiver looks for them, and no hardware address of the
-- target; it does not pass for a reply.
pub record IsRequest (our_mac : ℕ → ℕ) (our_ip target_ip : ℕ) (p : Packet) : Type 0 where
  pub broadcast : (i : ℕ) → i < 6 → p i ≡ 0xFF
  pub source : (i : ℕ) → i < 6 → p (6 + i) ≡ our_mac i
  pub ether_type : get16 12 p ≡ 0x0806
  pub hardware : get16 14 p ≡ 1
  pub protocol : get16 16 p ≡ 0x0800
  pub hardware_len : p 18 ≡ 6
  pub protocol_len : p 19 ≡ 4
  pub operation : get16 20 p ≡ 1
  pub sender_mac : (i : ℕ) → i < 6 → p (22 + i) ≡ our_mac i
  pub sender : get32 28 p ≡ our_ip
  pub target_mac : (i : ℕ) → i < 6 → p (32 + i) ≡ 0
  pub target : get32 38 p ≡ target_ip
  pub no_reply : (ip n : ℕ) → is_reply ip n p ≡ false

-- The number `k` of the calls gives a reply of the target.
abbrev pub replies : (recv : ℕ → ℕ × Packet) (target_ip k : ℕ) → Bool
replies recv target_ip k = is_reply target_ip (recv k).0 (recv k).1
