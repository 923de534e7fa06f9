-- ===== src/Journal/Wire.antt =====
-- src/filesystem/JournalManager.cpp: `serialize` and `deserialize`. Numbers that are copied by
-- `memcpy` lie in the byte order of a little-endian machine.
pub mod RoundTrip
use nebula_fs.Common.{
  ℕ, zero, suc, ◌+◌, ◌*◌, ◌%◌, ◌^◌, List, [], ◌∷◌, ◌++◌, Option, none, some, ltb, ◌==◌,
  if◌then◌else◌, length, take, drop, replicate,
}
use nebula_fs.Packed.{le_bytes}
use nebula_fs.Outcome.{Outcome, ok, fail, throws, undefined}
use nebula_fs.VarInt.{varint}
use nebula_fs.Reader.{Cursor, Reader, ◌>>=◌, ◌>>◌, pure, read_varint, need_more, read_byte}
use nebula_fs.Journal.Entry.{JournalEntryType, JournalEntry, Timestamp}
use nebula_fs.Journal.Manager.{JournalManager, Answer, ErrorCode, clear, type_byte}

code_entry : JournalEntry → List ℕ
code_entry e =
    (type_byte e.type ∷ [])
    ++ (varint e.sequence
        ++ (le_bytes 8 e.timestamp.seconds
            ++ (le_bytes 4 e.timestamp.nanos
                ++ (varint (length e.payload) ++ (e.payload ++ e.checksum)))))

code_entries : List JournalEntry → List ℕ
code_entries [] = []
code_entries (e ∷ es) = code_entry e ++ code_entries es

unfoldable pub serialize : JournalManager → List ℕ
unfolding code_entries code_entry
serialize j = varint j.sequence ++ (varint (length j.entries) ++ code_entries j.entries)

-- `static_cast<JournalEntryType>(byte)`
unfoldable pub from_byte : ℕ → JournalEntryType
from_byte b =
    if b == 1
    then JournalEntryType.begin_checkpoint
    else if b == 2
    then JournalEntryType.end_checkpoint
    else if b == 3
    then JournalEntryType.create_entry
    else if b == 4
    then JournalEntryType.update_entry
    else if b == 5
    then JournalEntryType.delete_entry
    else if b == 6
    then JournalEntryType.rename_entry
    else if b == 7
    then JournalEntryType.write_block
    else if b == 8
    then JournalEntryType.commit
    else if b == 9
    then JournalEntryType.abort
    else JournalEntryType.unnamed b

-- `if (offset + n > data.size()) break;`, where the sum wraps.
need_room : ℕ → Reader (Unit {0})
need_room n (pos, bytes) =
    if ltb (pos + length bytes) ((pos + n) % 2 ^ 64) then fail else ok (tt, (pos, bytes))

-- `memcpy` of `n` bytes into a number; past the end of the data it is undefined.
read_le : ℕ → Reader ℕ
read_le zero = pure 0
read_le (suc n) = do b ← read_byte; v ← read_le n; pure (b + 256 * v)

-- `n` bytes from the offset on; iterators past the end are undefined.
read_bytes : ℕ → Reader (List ℕ)
read_bytes n (pos, bytes) =
    if ltb (length bytes) n then undefined else ok (take n bytes, (pos + n, drop n bytes))

-- One round of the loop; `fail` is its `break`.
read_entry : Reader JournalEntry
unfolding from_byte
read_entry = do
  need_more
  type ← read_byte
  sequence ← read_varint
  need_room 12
  seconds ← read_le 8
  nanos ← read_le 4
  size ← read_varint
  need_room (size + 32)
  payload ← read_bytes size
  checksum ← read_bytes 32
  pure (record {
    type = from_byte type;
    sequence = sequence;
    timestamp = record { seconds = seconds; nanos = nanos };
    payload = payload;
    checksum = checksum;
  })

abbrev push_entry : JournalEntry → JournalManager → JournalManager
push_entry e j = record j {
  entries = j.entries ++ e ∷ [];
  total_journal_size = (j.total_journal_size + length e.payload) % 2 ^ 64;
}

load_entries : ℕ → Cursor → JournalManager → Outcome Answer
load_entries zero c j = ok (j, none)
load_entries (suc count) c j = elim (read_entry c) [
  | ok (e, c') ↦ load_entries count c' (push_entry e j)
  | fail ↦ ok (j, none)
  | throws ↦ throws
  | undefined ↦ undefined
]

load_count : Cursor → JournalManager → Outcome Answer
load_count c j = elim (read_varint c) [
  | ok (count, c') ↦ load_entries count c' j
  | fail ↦ ok (j, some ErrorCode.journal_corrupt)
  | throws ↦ throws
  | undefined ↦ undefined
]

unfoldable pub deserialize : List ℕ → JournalManager → Outcome Answer
unfolding load_count load_entries read_entry need_room read_le read_bytes
deserialize bytes j =
    let j' = clear j in
    elim (read_varint (0, bytes)) [
      | ok (sequence, c) ↦ load_count c (record j' { sequence = sequence })
      | fail ↦ ok (j', some ErrorCode.journal_corrupt)
      | throws ↦ throws
      | undefined ↦ undefined
    ]
