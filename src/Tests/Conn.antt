-- ===== src/Tests/Conn.antt =====
-- Published values of MurmurHash3, and two tuples, for src/storage/hashtable.c.
use anti.Base.{◌≡◌, refl, [], ◌∷◌}
use anti.Addr.{inet}
use anti.Conn.{ConnTuple, murmur3_32, absorb, mix, scramble, rotate, finalize}

-- "test" and "Hello, world!".
hash_of_block : murmur3_32 (116 ∷ 101 ∷ 115 ∷ 116 ∷ []) 0 ≡ 0xba6bd213
unfolding murmur3_32 absorb mix scramble rotate finalize
hash_of_block = refl

hash_of_text :
    murmur3_32
      (72 ∷ 101 ∷ 108 ∷ 108 ∷ 111 ∷ 44 ∷ 32 ∷ 119 ∷ 111 ∷ 114 ∷ 108 ∷ 100 ∷ 33 ∷ [])
      0x9747b28c
    ≡ 0x24884cba
unfolding murmur3_32 absorb mix scramble rotate finalize
hash_of_text = refl

abbrev web : ConnTuple
web = record { src_ip = inet 1; dst_ip = inet 2; src_port = 4000; dst_port = 80; protocol = 6 }

abbrev dns : ConnTuple
dns = record web { dst_port = 53; protocol = 17 }
