-- ===== src/Journal/Wire/RoundTrip.antt =====
-- What `serialize` writes, `deserialize` loads.
use nebula_fs.Common.{
  ℕ, zero, suc, ◌+◌, ◌*◌, ◌/◌, ◌%◌, ◌^◌, ◌≤◌, ◌<◌, ◌≡◌, ◌⊎◌, refl, sym, ap, ap₂, ◌∙◌, List, [], ◌∷◌,
  ◌++◌, append-nil, append_assoc, none, ltb-false, length, length-append, take-append, drop-append,
  All, arith,
}
use nebula_fs.Packed.{le_bytes}
use nebula_fs.Outcome.{ok}
use nebula_fs.VarInt.{IsU64, varint}
use nebula_fs.Reader.{Reader, ◌>>=◌, read_varint, read_byte}
use nebula_fs.Reader.Laws.{
  Reads, Reads-pure, Reads-bind, Reads-need_more, Reads-read_varint, Reads-read_byte, Reads-last,
  Reads-value,
}
use nebula_fs.Journal.Entry.{JournalEntryType, JournalEntry, payload_total}
use nebula_fs.Journal.Manager.{JournalManager, clear, type_byte}
use nebula_fs.Journal.Wire.{
  code_entry, code_entries, serialize, from_byte, need_room, read_le, read_bytes, read_entry,
  push_entry, load_entries, load_count, deserialize,
}

Reads-read_le : (n v : ℕ) → v < 256 ^ n → Reads (read_le n) (le_bytes n v) v
unfolding read_le
Reads-read_le zero v h = Reads-value (omega arith) (Reads-pure 0)
Reads-read_le (suc n) v h =
    let back : v % 256 + 256 * (v / 256) ≡ v = omega arith in
    Reads-value back (
      Reads-bind read_byte _ (Reads-read_byte (v % 256))
        (Reads-last (read_le n) (λ t. v % 256 + 256 * t) (Reads-read_le n (v / 256) (omega arith))))

Reads-read_bytes : (bytes : List ℕ) → Reads (read_bytes (length bytes)) bytes bytes
unfolding read_bytes
Reads-read_bytes bytes = record {
  at = λ pos rest fits. rw (
    ltb-false (length (bytes ++ rest)) (length bytes) (omega (arith, length-append bytes rest)),
    take-append bytes rest,
    drop-append bytes rest,
  );
}

Reads-need_room :
    {A : Type 0} (n : ℕ) (m : Reader A) {bytes : List ℕ} {a : A}
    → n ≤ length bytes
    → Reads m bytes a
    → Reads (need_room n >>= λ _. m) bytes a
unfolding need_room
Reads-need_room n m {bytes} room h = record {
  at = λ pos rest fits.
      let len = length-append bytes rest in
      rw
        (
          ltb-false (pos + length (bytes ++ rest)) ((pos + n) % 2 ^ 64) (omega (arith, len)),
          ◌>>=◌,
          need_room,
        )
        (h.at pos rest fits);
}

-- A type that a byte stands for, and no other name for it.
abbrev pub IsType : JournalEntryType → Type 0
IsType (JournalEntryType.unnamed b) = (9 < b ⊎ b ≡ 0) × (b < 256)
IsType _ = Unit {0}

from_byte-type_byte : (t : JournalEntryType) → IsType t → from_byte (type_byte t) ≡ t
unfolding from_byte type_byte
from_byte-type_byte (JournalEntryType.unnamed b) h = ground arith
from_byte-type_byte JournalEntryType.begin_checkpoint h = refl
from_byte-type_byte _ h = refl

-- An entry within the ranges of its fields, with a checksum of 32 bytes.
pub record IsWire (e : JournalEntry) : Type 0 where
  pub named : IsType e.type
  pub sequence : IsU64 e.sequence
  pub seconds : e.timestamp.seconds < 256 ^ 8
  pub nanos : e.timestamp.nanos < 256 ^ 4
  pub size : IsU64 (length e.payload)
  pub digest : length e.checksum ≡ 32

Reads-entry : (e : JournalEntry) → IsWire e → Reads read_entry (code_entry e) e
unfolding read_entry code_entry
Reads-entry e w =
    let build : List ℕ → JournalEntry = λ t. record {
      type = from_byte (type_byte e.type);
      sequence = e.sequence;
      timestamp = record { seconds = e.timestamp.seconds; nanos = e.timestamp.nanos };
      payload = e.payload;
      checksum = t;
    } in
    let same : build e.checksum ≡ e = ground (arith, from_byte-type_byte e.type w.named) in
    let digest : Reads (read_bytes 32) e.checksum e.checksum =
      rw w.digest at (Reads-read_bytes e.checksum) in
    let len = length-append e.payload e.checksum in
    let tail =
      Reads-bind (read_bytes (length e.payload)) _ (Reads-read_bytes e.payload)
        (Reads-last (read_bytes 32) build digest) in
    Reads-value same (
      Reads-need_more _ (omega arith) (
        Reads-bind read_byte _ (Reads-read_byte (type_byte e.type)) (
          Reads-bind read_varint _ (Reads-read_varint e.sequence w.sequence) (
            Reads-need_room 12 _ (omega arith) (
              Reads-bind (read_le 8) _ (Reads-read_le 8 e.timestamp.seconds w.seconds) (
                Reads-bind (read_le 4) _ (Reads-read_le 4 e.timestamp.nanos w.nanos) (
                  Reads-bind read_varint _ (Reads-read_varint (length e.payload) w.size) (
                    Reads-need_room (length e.payload + 32) _ (omega (arith, w.digest)) tail))))))))

-- The entries are pushed back in order, whatever follows them.
load_entries-code_entries :
    (es : List JournalEntry) (pos : ℕ) (rest : List ℕ) (j : JournalManager)
    → All IsWire es
    → IsU64 j.total_journal_size
    → pos + length (code_entries es) + length rest < 2 ^ 64
    → load_entries (length es) (pos, code_entries es ++ rest) j
      ≡ ok (
        record j {
          entries = j.entries ++ es;
          total_journal_size = (j.total_journal_size + payload_total es) % 2 ^ 64;
        },
        none,
      )
unfolding load_entries code_entries
load_entries-code_entries [] pos rest j w small fits =
    ap₂ (λ a b. ok (record j { entries = a; total_journal_size = b }, none))
      (sym (append-nil j.entries)) (omega arith)
load_entries-code_entries (e ∷ es) pos rest j w small fits =
    let len = length-append (code_entry e) (code_entries es) in
    let total = (j.total_journal_size + length e.payload) % 2 ^ 64 in
    let first =
      (Reads-entry e w.0).at pos (code_entries es ++ rest)
        (omega (arith, len, length-append (code_entries es) rest)) in
    rw (append_assoc (code_entry e) (code_entries es) rest, first, load_entries)
      (load_entries-code_entries es (pos + length (code_entry e)) rest (push_entry e j) w.1
          (omega arith) (omega (arith, len))
        ∙ ap₂ (λ a b. ok (record j { entries = a; total_journal_size = b }, none))
            (append_assoc j.entries (e ∷ []) es) (omega arith))

-- A journal that `serialize` keeps whole.
pub record IsSerializable (j : JournalManager) : Type 0 where
  pub wire : All IsWire j.entries
  pub sequence : IsU64 j.sequence
  pub count : IsU64 (length j.entries)
  pub total : j.total_journal_size ≡ payload_total j.entries % 2 ^ 64
  pub short : length (serialize j) < 2 ^ 64

read_varint-front :
    (v pos : ℕ) (rest : List ℕ)
    → IsU64 v
    → pos + length (varint v) + length rest < 2 ^ 64
    → read_varint (pos, varint v ++ rest) ≡ ok (v, (pos + length (varint v), rest))
read_varint-front v pos rest h fits = (Reads-read_varint v h).at pos rest fits

-- Loading what was serialized gives, in any manager, the same entries, sequence number and total,
-- with both flags cleared and the manager's other fields kept.
pub deserialize-serialize_journal :
    (j k : JournalManager)
    → IsSerializable j
    → deserialize (serialize j) k
      ≡ ok (
        record (clear k) {
          entries = j.entries;
          sequence = j.sequence;
          total_journal_size = j.total_journal_size;
        },
        none,
      )
unfolding deserialize serialize clear
deserialize-serialize_journal j k s =
    let count = varint (length j.entries) in
    let body = code_entries j.entries in
    let front = varint j.sequence in
    let len₁ = length-append front (count ++ body) in
    let len₂ = length-append count body in
    let fits : length front + (length count + length body) < 2 ^ 64 =
      omega (arith, len₁, len₂, s.short) in
    let start : JournalManager = record (clear k) { sequence = j.sequence } in
    let whole =
      load_entries-code_entries j.entries (0 + length front + length count) [] start s.wire
        (omega arith) (omega arith) in
    rw
      (
        read_varint-front j.sequence 0 (count ++ body) s.sequence (omega (arith, len₂)),
        deserialize,
        load_count,
        read_varint-front (length j.entries) (0 + length front) body s.count (omega arith),
      )
      (rw append-nil at whole
        ∙ ap (λ a. ok (record start { entries = j.entries; total_journal_size = a }, none))
            (omega (arith, s.total)))
