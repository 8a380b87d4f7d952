-- ===== src/Wire/Protocol.antt =====
-- engine/internal/wire/protocol.go: the messages of the wire protocol, version 3.
-- A reader is the bytes that are still to come, a writer the bytes that were written; the writes of the
-- buffered writer do not fail here. A length that is put into a message is cut to 32 bits, as the source's is.
pub mod Framing
use basuyudb.Base.{
  ℕ, zero, suc, ◌+◌, ◌-◌, ◌/◌, ◌%◌, ◌^◌, Bool, true, false, List, [], ◌∷◌, ◌++◌, Bytes, Result, ok,
  err, ◌>>=◌, put_uint32, get_uint32, length, take, drop, ltb, ◌==◌, ◌||◌, if◌then◌else◌, eof,
  invalid_message_length, invalid_startup_length,
}
use basuyudb.Storage.Backup.{read_full}

-- The body behind a message's length.
unfoldable pub read_body : ℕ → Bytes → Result ((ℕ × Bytes) × Bytes)
unfolding read_full
read_body typ r = read_full 4 r >>= λ lp.
    let n = get_uint32 lp.0 in
    if ltb n 4
    then err invalid_message_length
    else (read_full (n - 4) lp.1 >>= λ b. ok ((typ, b.0), b.1))

-- readTyped: the type byte and the body, and the reader behind the message.
unfoldable pub read_typed : Bytes → Result ((ℕ × Bytes) × Bytes)
unfolding read_body
read_typed [] = err eof
read_typed (t ∷ r) = read_body t r

-- readStartup: the code and the body, and the reader behind the packet.
unfoldable pub read_startup : Bytes → Result ((ℕ × Bytes) × Bytes)
unfolding read_full
read_startup r = read_full 4 r >>= λ lp.
    let n = get_uint32 lp.0 in
    if ltb n 8 || ltb (2 ^ 20) n
    then err invalid_startup_length
    else (read_full (n - 4) lp.1 >>= λ b. ok ((get_uint32 (take 4 b.0), b.0), b.1))

-- send
unfoldable pub send : ℕ → Bytes → Bytes → Bytes
send typ body out = out ++ (typ ∷ put_uint32 ((length body + 4) % 2 ^ 32) ++ body)

-- builder's methods
unfoldable pub build_int16 : Bytes → ℕ → Bytes
build_int16 b v = b ++ (v / 2 ^ 8 % 256) ∷ (v % 256) ∷ []

unfoldable pub build_int32 : Bytes → ℕ → Bytes
build_int32 b v = b ++ put_uint32 v

unfoldable pub build_byte1 : Bytes → ℕ → Bytes
build_byte1 b v = b ++ v ∷ []

unfoldable pub build_str : Bytes → Bytes → Bytes
build_str b s = (b ++ s) ++ 0 ∷ []

unfoldable pub build_bytes : Bytes → Bytes → Bytes
build_bytes b p = b ++ p

unfoldable pub authentication_ok : Bytes
unfolding build_int32
authentication_ok = build_int32 [] 0

unfoldable pub authentication_cleartext : Bytes
unfolding build_int32
authentication_cleartext = build_int32 [] 3

unfoldable pub parameter_status : Bytes → Bytes → Bytes
unfolding build_str
parameter_status name val = build_str (build_str [] name) val

unfoldable pub backend_key_data : ℕ → ℕ → Bytes
unfolding build_int32
backend_key_data pid secret = build_int32 (build_int32 [] pid) secret

unfoldable pub ready_for_query : ℕ → Bytes
ready_for_query status = status ∷ []

unfoldable pub command_complete : Bytes → Bytes
unfolding build_str
command_complete tag = build_str [] tag

unfoldable pub error_response : Bytes → Bytes → Bytes → Bytes
unfolding build_str build_byte1
error_response severity sqlstate message =
    let e = build_str (build_byte1 [] b'S') severity in
    let e = build_str (build_byte1 e b'V') severity in
    let e = build_str (build_byte1 e b'C') sqlstate in
    let e = build_str (build_byte1 e b'M') message in build_byte1 e 0

-- The loop of cString: the bytes before the next NUL, or all of them.
unfoldable pub until_nul : Bytes → Bytes
until_nul [] = []
until_nul (c ∷ s) = let rest = until_nul s in if c == 0 then [] else c ∷ rest

-- cString at a position that is not behind the end of the body: the string, and the new position.
unfoldable pub c_string : Bytes → ℕ → Bytes × ℕ
unfolding until_nul
c_string body pos = let s = until_nul (drop pos body) in (s, pos + length s + 1)
