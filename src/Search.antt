-- ===== src/Search.antt =====
-- src/search: the terms of a text (Tokenizer) and the index of them (InvertedIndex), over the posting
-- lists of PostingList. Scores, which are floating point, are left out, and with them `search`.
pub mod Stopwords
pub mod Tokenizer
pub mod Pieces
pub mod InvertedIndex
pub mod Removal
pub mod Adding
pub mod Indexing
pub mod Wire
mod Tests
