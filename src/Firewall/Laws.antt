-- ===== src/Firewall/Laws.antt =====
-- What `firewall_is_blocked` of src/filter/firewall.c answers after the other operations.
use anti.Base.{ℕ, ◌+◌, ◌≤◌, ◌≡◌, ◌⊎◌, Bool, true, some, arith, success}
use anti.Addr.{IpAddr}
use anti.Ipset.{Ipset, insert, add_expiring}
use anti.Ipset.Lookup.{contains-insert}
use anti.Firewall.{Firewall, expiry, firewall_block_ip, firewall_is_blocked}

expiry_lem :
    (now duration_sec later : ℕ)
    → (duration_sec ≡ 0) ⊎ (later ≤ now + duration_sec)
    → (expiry now duration_sec ≡ 0) ⊎ (later ≤ expiry now duration_sec)
expiry_lem now duration_sec later h = ground arith

-- An address that `firewall_block_ip` has blocked is blocked until the duration is over, or for ever
-- where the duration is 0, if the kernel took the rule and the set took the address.
pub firewall_is_blocked-firewall_block_ip :
    (fw : Firewall) (set : Ipset) (ip : IpAddr) (duration_sec now later : ℕ) (granted : Bool)
    → fw.blocked ≡ some set
    → (insert set ip (expiry now duration_sec) granted).0 ≡ success
    → (duration_sec ≡ 0) ⊎ (later ≤ now + duration_sec)
    → firewall_is_blocked (firewall_block_ip fw ip duration_sec now true granted).1 ip later ≡ true
unfolding firewall_is_blocked firewall_block_ip add_expiring
firewall_is_blocked-firewall_block_ip fw set ip duration_sec now later granted e taken h =
    rw (e, firewall_block_ip)
      (contains-insert set ip (expiry now duration_sec) later granted taken
        (expiry_lem now duration_sec later h))
