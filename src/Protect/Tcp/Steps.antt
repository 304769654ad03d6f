-- ===== src/Protect/Tcp/Steps.antt =====
-- The writes of `tcp_protect_analyze` of src/detection/tcp_protect.c to a connection in memory.
use anti.Base.{ℕ, ◌≡◌, refl, ap, ◌∙◌, Bool, true, false, some, ==_refl, if◌then◌else◌}
use anti.Types.{drop, Config}
use anti.Packet.{Packet}
use anti.Conn.Heap.{TcpState, ConnEntry, Heap, Outcome, done, after, load, modify, read}
use anti.Lru.{LruCache}
use anti.Lru.Valid.Written.{written}
use anti.Protect.Watch.{Watch}
use anti.Protect.Tcp.{TcpProtectCtx, Noted, is_slowloris_attack, check_flags}
use anti.Protect.Tcp.Analyze.{counted, set_state, check_connection, analyze_connection}

-- What the flags of the packet make of a connection, which was `start` before it.
abbrev pub noted : Config → ℕ → Packet → ConnEntry → Watch TcpProtectCtx → Noted
noted cfg now pkt start w = check_flags cfg now pkt.tcp_flags start.state w

-- The Slowloris test of the connection after the packet.
abbrev pub is_slow : Config → ℕ → Packet → ConnEntry → Watch TcpProtectCtx → Bool
is_slow cfg now pkt start w =
    is_slowloris_attack now (set_state (noted cfg now pkt start w).0 (counted now pkt start))

-- The memory after the writes to the connection.
abbrev pub updated : ℕ → Packet → ℕ → TcpState → ConnEntry → Heap → Heap
updated now pkt p state e k =
    written (written k p (counted now pkt e)) p (set_state state (counted now pkt e))

pub after_done :
    {A B : Type 0} {r : Outcome A} {a : A} {h : Heap} (f : A → Heap → Outcome B)
    → r ≡ done a h
    → after r f ≡ f a h
after_done f e = ap (λ x. after x f) e

load_at : (p : ℕ) (h : Heap) (e : ConnEntry) → h.cell p ≡ some e → load p h ≡ done e h
unfolding load
load_at p h e here = rw (here, load, read) refl

modify_at :
    (p : ℕ) (f : ConnEntry → ConnEntry) (h : Heap) (e : ConnEntry)
    → h.cell p ≡ some e
    → modify p f h ≡ done tt (written h p (f e))
unfolding modify
modify_at p f h e here = rw (here, modify, read) refl

pub written_here : (h : Heap) (p : ℕ) (e : ConnEntry) → (written h p e).cell p ≡ some e
written_here h p e = rw (==_refl p) refl

if_run :
    {A : Type 0} (b : Bool) (f g : Heap → Outcome A) (h : Heap)
    → (if b then f else g) h ≡ (if b then f h else g h)
if_run true f g h = refl
if_run false f g h = refl

pub analyze_connection_steps :
    (cfg : Config) (now : ℕ) (pkt : Packet) (c : LruCache) (p : ℕ) (w : Watch TcpProtectCtx)
    (k : Heap) (e : ConnEntry)
    → k.cell p ≡ some e
    → analyze_connection cfg now pkt c p w k ≡ (
        if (noted cfg now pkt e w).2
        then done
            (drop, c, (noted cfg now pkt e w).1)
            (updated now pkt p (noted cfg now pkt e w).0 e k)
        else check_connection now pkt c
            (set_state (noted cfg now pkt e w).0 (counted now pkt e))
            (noted cfg now pkt e w).1
            (updated now pkt p (noted cfg now pkt e w).0 e k))
unfolding analyze_connection load modify
analyze_connection_steps cfg now pkt c p w k e here =
    let n = noted cfg now pkt e w in
    let k₁ = written k p (counted now pkt e) in
    let e₂ = set_state n.0 (counted now pkt e) in
    after_done _ (modify_at p (counted now pkt) k e here)
    ∙ after_done _ (load_at p k₁ (counted now pkt e) (written_here k p (counted now pkt e)))
    ∙ after_done _
        (modify_at p (set_state n.0) k₁ (counted now pkt e) (written_here k p (counted now pkt e)))
    ∙ after_done _ (load_at p (written k₁ p e₂) e₂ (written_here k₁ p e₂))
    ∙ if_run n.2 (λ l. done (drop, c, n.1) l) (check_connection now pkt c e₂ n.1) (written k₁ p e₂)
