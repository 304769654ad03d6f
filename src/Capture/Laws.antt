-- ===== src/Capture/Laws.antt =====
-- From the frames of an interface to the handler of their packets.
use anti.Base.{
  ◌^◌, ◌<◌, ◌≡◌, ◌≢◌, refl, sym, ◌∙◌, Bool, true, false, ◌&&◌, List, [], ◌∷◌, ◌++◌, if◌then◌else◌,
  length, is_zero, Bool-cases, inl, inr, Run, ok, fault, ℤ, Run-total,
}
use anti.Types.{Config}
use anti.Packet.{Packet}
use anti.Packet.Http.{Libc}
use anti.Conn.Heap.{Heap, Outcome, M, pure, after, done, wild, unfinished}
use anti.Conn.Reason.{Returns}
use anti.Analyzer.{initial}
use anti.Analyzer.Handler.{Worker, Surroundings, packet_handler}
use anti.Analyzer.Blank.{handle_all, IsUntouched, handle_all-initial}
use anti.Capture.{Frame, handle_parsed, parse_frame, pcap_callback, deliver}

-- A frame for which memory is found and that is parsed is handed on.
abbrev pub parsed_packet : Frame → Run (ℤ × Packet) → List (Surroundings × Packet)
parsed_packet f fault = []
parsed_packet f (ok (ret, pkt)) =
    if f.granted && f.data_granted && is_zero ret then (f.surroundings, pkt) ∷ [] else []

-- The packets that the frames give, in their order.
abbrev pub packets_of : Libc → List Frame → List (Surroundings × Packet)
packets_of libc [] = []
packets_of libc (f ∷ fs) = parsed_packet f (parse_frame libc f) ++ packets_of libc fs

-- The parser stays inside the captured bytes of every frame.
abbrev pub AllParse : Libc → List Frame → Type 0
AllParse libc [] = Unit {0}
AllParse libc (f ∷ fs) = (parse_frame libc f ≢ fault) × AllParse libc fs

after-done : {A : Type 0} (o : Outcome A) → after o (λ a h. done a h) ≡ o
after-done (done a h) = refl
after-done wild = refl
after-done unfinished = refl

after-cong :
    {A B : Type 0} (o : Outcome A) {f g : A → M B}
    → ((a : A) (h : Heap) → f a h ≡ g a h)
    → after o f ≡ after o g
after-cong (done a h) e = e a h
after-cong wild e = refl
after-cong unfinished e = refl

after_assoc :
    {A B C : Type 0} (o : Outcome A) (f : A → M B) (g : B → M C)
    → after (after o f) g ≡ after o (λ a h. after (f a h) g)
after_assoc (done a h) f g = refl
after_assoc wild f g = refl
after_assoc unfinished f g = refl

handle_all-append :
    (cfg : Config) (xs ys : List (Surroundings × Packet)) (w : Worker) (h : Heap)
    → handle_all cfg (xs ++ ys) w h ≡ after (handle_all cfg xs w h) (λ u k. handle_all cfg ys u k)
unfolding handle_all
handle_all-append cfg [] ys w h = refl
handle_all-append cfg ((s, pkt) ∷ xs) ys w h =
    after-cong (packet_handler cfg s pkt w h) (λ u k. handle_all-append cfg xs ys u k)
    ∙ sym (after_assoc (packet_handler cfg s pkt w h) (handle_all cfg xs) (handle_all cfg ys))

module _ (cfg : Config) (libc : Libc) where
  handled :
      (a b : Bool) (s : Surroundings) (p : ℤ × Packet) (w : Worker) (h : Heap)
      → (if a && b then handle_parsed cfg s p w else pure w) h
        ≡ handle_all cfg (if a && b && is_zero p.0 then (s, p.1) ∷ [] else []) w h
  unfolding handle_all
  handled true true s p w h = elim (Bool-cases (is_zero p.0)) [
    | inl good ↦ rw good (sym (after-done (packet_handler cfg s p.1 w h)))
    | inr bad ↦ rw bad refl
  ]
  handled true false s p w h = refl
  handled false b s p w h = refl

  pcap_callback-parsed :
      (f : Frame) (w : Worker) (h : Heap)
      → parse_frame libc f ≢ fault
      → pcap_callback cfg libc f w h ≡ handle_all cfg (parsed_packet f (parse_frame libc f)) w h
  unfolding pcap_callback
  pcap_callback-parsed f w h fine =
      let (p, e) = Run-total (parse_frame libc f) fine in
      rw e (handled f.granted f.data_granted f.surroundings p w h)

  -- Where the parser stays inside the captured bytes, the capture loop does what the handler does on the
  -- packets that are parsed, one after the other.
  deliver-packets_of :
      (fs : List Frame) (w : Worker) (h : Heap)
      → AllParse libc fs
      → deliver cfg libc fs w h ≡ handle_all cfg (packets_of libc fs) w h
  unfolding deliver
  deliver-packets_of [] w h a = unfold handle_all in refl
  deliver-packets_of (f ∷ fs) w h a = rw (pcap_callback-parsed f w h a.0) (
      after-cong _ (λ u k. deliver-packets_of fs u k a.1)
      ∙ sym (handle_all-append cfg (parsed_packet f (parse_frame libc f)) (packets_of libc fs) w h))

  -- From the table that `analyzer_init` leaves, and while the parser stays inside the captured bytes, the
  -- capture comes to the end of every sequence of frames: each frame that is parsed is counted once, and
  -- no packet is dropped, slowed or reported, whatever it is; the connections, the counters of every
  -- detector, the blacklist and the firewall stay as they were.
  pub deliver-initial :
      (fs : List Frame) (w : Worker) (h : Heap)
      → AllParse libc fs
      → w.shutdown ≡ false
      → w.engine.global.total_packets < 2 ^ 64
      → w.engine.table ≡ initial
      → Returns
          (λ u k. (k ≡ h) × IsUntouched w u (length (packets_of libc fs)))
          (deliver cfg libc fs w h)
  deliver-initial fs w h a running fits fresh =
      rw (deliver-packets_of fs w h a)
        (handle_all-initial cfg (packets_of libc fs) w h running fits fresh)

  -- A frame on which the parser leaves them loses the run, whatever follows.
  pub deliver-overrun :
      (f : Frame) (fs : List Frame) (w : Worker) (h : Heap)
      → f.granted && f.data_granted ≡ true
      → parse_frame libc f ≡ fault
      → deliver cfg libc (f ∷ fs) w h ≡ wild
  unfolding deliver pcap_callback
  deliver-overrun f fs w h given lost = rw (given, deliver, pcap_callback) (rw lost refl)
