-- ===== src/Tests/Firewall.antt =====
-- A firewall with an empty set, for the theorem on src/filter/firewall.c.
use anti.Base.{◌≡◌, refl, true, some, [], inr, arith}
use anti.Addr.{inet}
use anti.Ipset.{insert, refresh, push}
use anti.Firewall.{Firewall, iptables, firewall_block_ip, firewall_is_blocked}
use anti.Firewall.Laws.{firewall_is_blocked-firewall_block_ip}
use anti.Tests.Sets.{empty}

abbrev fw : Firewall
fw = record { backend = iptables; blocked = some empty; commands = [] }

firewall_is_blocked-firewall_block_ip_example :
    firewall_is_blocked (firewall_block_ip fw (inet 7) 60 100 true true).1 (inet 7) 160 ≡ true
unfolding insert refresh push
firewall_is_blocked-firewall_block_ip_example =
    firewall_is_blocked-firewall_block_ip fw empty (inet 7) 60 100 160 true refl refl
      (inr (omega arith))
