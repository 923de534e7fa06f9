-- ===== src/Search/Stopwords.antt =====
-- The words that `Tokenizer::loadDefaultStopwords` of src/search/Tokenizer.cpp puts in, as bytes.
use nebula_fs.Common.{ℕ, List, [], ◌∷◌}

abbrev pub default_words : List (List ℕ)
default_words =
    (97 ∷ [])
    ∷  -- a
        (97 ∷ 98 ∷ 111 ∷ 117 ∷ 116 ∷ [])
    ∷  -- about
        (97 ∷ 98 ∷ 111 ∷ 118 ∷ 101 ∷ [])
    ∷  -- above
        (97 ∷ 102 ∷ 116 ∷ 101 ∷ 114 ∷ [])
    ∷  -- after
        (97 ∷ 103 ∷ 97 ∷ 105 ∷ 110 ∷ [])
    ∷  -- again
        (97 ∷ 103 ∷ 97 ∷ 105 ∷ 110 ∷ 115 ∷ 116 ∷ [])
    ∷  -- against
        (97 ∷ 108 ∷ 108 ∷ [])
    ∷  -- all
        (97 ∷ 109 ∷ [])
    ∷  -- am
        (97 ∷ 110 ∷ [])
    ∷  -- an
        (97 ∷ 110 ∷ 100 ∷ [])
    ∷  -- and
        (97 ∷ 110 ∷ 121 ∷ [])
    ∷  -- any
        (97 ∷ 114 ∷ 101 ∷ [])
    ∷  -- are
        (97 ∷ 114 ∷ 101 ∷ 110 ∷ 39 ∷ 116 ∷ [])
    ∷  -- aren't
        (97 ∷ 115 ∷ [])
    ∷  -- as
        (97 ∷ 116 ∷ [])
    ∷  -- at
        (98 ∷ 101 ∷ [])
    ∷  -- be
        (98 ∷ 101 ∷ 99 ∷ 97 ∷ 117 ∷ 115 ∷ 101 ∷ [])
    ∷  -- because
        (98 ∷ 101 ∷ 101 ∷ 110 ∷ [])
    ∷  -- been
        (98 ∷ 101 ∷ 102 ∷ 111 ∷ 114 ∷ 101 ∷ [])
    ∷  -- before
        (98 ∷ 101 ∷ 105 ∷ 110 ∷ 103 ∷ [])
    ∷  -- being
        (98 ∷ 101 ∷ 108 ∷ 111 ∷ 119 ∷ [])
    ∷  -- below
        (98 ∷ 101 ∷ 116 ∷ 119 ∷ 101 ∷ 101 ∷ 110 ∷ [])
    ∷  -- between
        (98 ∷ 111 ∷ 116 ∷ 104 ∷ [])
    ∷  -- both
        (98 ∷ 117 ∷ 116 ∷ [])
    ∷  -- but
        (98 ∷ 121 ∷ [])
    ∷  -- by
        (99 ∷ 97 ∷ 110 ∷ 39 ∷ 116 ∷ [])
    ∷  -- can't
        (99 ∷ 97 ∷ 110 ∷ 110 ∷ 111 ∷ 116 ∷ [])
    ∷  -- cannot
        (99 ∷ 111 ∷ 117 ∷ 108 ∷ 100 ∷ [])
    ∷  -- could
        (99 ∷ 111 ∷ 117 ∷ 108 ∷ 100 ∷ 110 ∷ 39 ∷ 116 ∷ [])
    ∷  -- couldn't
        (100 ∷ 105 ∷ 100 ∷ [])
    ∷  -- did
        (100 ∷ 105 ∷ 100 ∷ 110 ∷ 39 ∷ 116 ∷ [])
    ∷  -- didn't
        (100 ∷ 111 ∷ [])
    ∷  -- do
        (100 ∷ 111 ∷ 101 ∷ 115 ∷ [])
    ∷  -- does
        (100 ∷ 111 ∷ 101 ∷ 115 ∷ 110 ∷ 39 ∷ 116 ∷ [])
    ∷  -- doesn't
        (100 ∷ 111 ∷ 105 ∷ 110 ∷ 103 ∷ [])
    ∷  -- doing
        (100 ∷ 111 ∷ 110 ∷ 39 ∷ 116 ∷ [])
    ∷  -- don't
        (100 ∷ 111 ∷ 119 ∷ 110 ∷ [])
    ∷  -- down
        (100 ∷ 117 ∷ 114 ∷ 105 ∷ 110 ∷ 103 ∷ [])
    ∷  -- during
        (101 ∷ 97 ∷ 99 ∷ 104 ∷ [])
    ∷  -- each
        (102 ∷ 101 ∷ 119 ∷ [])
    ∷  -- few
        (102 ∷ 111 ∷ 114 ∷ [])
    ∷  -- for
        (102 ∷ 114 ∷ 111 ∷ 109 ∷ [])
    ∷  -- from
        (102 ∷ 117 ∷ 114 ∷ 116 ∷ 104 ∷ 101 ∷ 114 ∷ [])
    ∷  -- further
        (104 ∷ 97 ∷ 100 ∷ [])
    ∷  -- had
        (104 ∷ 97 ∷ 100 ∷ 110 ∷ 39 ∷ 116 ∷ [])
    ∷  -- hadn't
        (104 ∷ 97 ∷ 115 ∷ [])
    ∷  -- has
        (104 ∷ 97 ∷ 115 ∷ 110 ∷ 39 ∷ 116 ∷ [])
    ∷  -- hasn't
        (104 ∷ 97 ∷ 118 ∷ 101 ∷ [])
    ∷  -- have
        (104 ∷ 97 ∷ 118 ∷ 101 ∷ 110 ∷ 39 ∷ 116 ∷ [])
    ∷  -- haven't
        (104 ∷ 97 ∷ 118 ∷ 105 ∷ 110 ∷ 103 ∷ [])
    ∷  -- having
        (104 ∷ 101 ∷ [])
    ∷  -- he
        (104 ∷ 101 ∷ 39 ∷ 100 ∷ [])
    ∷  -- he'd
        (104 ∷ 101 ∷ 39 ∷ 108 ∷ 108 ∷ [])
    ∷  -- he'll
        (104 ∷ 101 ∷ 39 ∷ 115 ∷ [])
    ∷  -- he's
        (104 ∷ 101 ∷ 114 ∷ [])
    ∷  -- her
        (104 ∷ 101 ∷ 114 ∷ 101 ∷ [])
    ∷  -- here
        (104 ∷ 101 ∷ 114 ∷ 101 ∷ 39 ∷ 115 ∷ [])
    ∷  -- here's
        (104 ∷ 101 ∷ 114 ∷ 115 ∷ [])
    ∷  -- hers
        (104 ∷ 101 ∷ 114 ∷ 115 ∷ 101 ∷ 108 ∷ 102 ∷ [])
    ∷  -- herself
        (104 ∷ 105 ∷ 109 ∷ [])
    ∷  -- him
        (104 ∷ 105 ∷ 109 ∷ 115 ∷ 101 ∷ 108 ∷ 102 ∷ [])
    ∷  -- himself
        (104 ∷ 105 ∷ 115 ∷ [])
    ∷  -- his
        (104 ∷ 111 ∷ 119 ∷ [])
    ∷  -- how
        (104 ∷ 111 ∷ 119 ∷ 39 ∷ 115 ∷ [])
    ∷  -- how's
        (105 ∷ [])
    ∷  -- i
        (105 ∷ 39 ∷ 100 ∷ [])
    ∷  -- i'd
        (105 ∷ 39 ∷ 108 ∷ 108 ∷ [])
    ∷  -- i'll
        (105 ∷ 39 ∷ 109 ∷ [])
    ∷  -- i'm
        (105 ∷ 39 ∷ 118 ∷ 101 ∷ [])
    ∷  -- i've
        (105 ∷ 102 ∷ [])
    ∷  -- if
        (105 ∷ 110 ∷ [])
    ∷  -- in
        (105 ∷ 110 ∷ 116 ∷ 111 ∷ [])
    ∷  -- into
        (105 ∷ 115 ∷ [])
    ∷  -- is
        (105 ∷ 115 ∷ 110 ∷ 39 ∷ 116 ∷ [])
    ∷  -- isn't
        (105 ∷ 116 ∷ [])
    ∷  -- it
        (105 ∷ 116 ∷ 39 ∷ 115 ∷ [])
    ∷  -- it's
        (105 ∷ 116 ∷ 115 ∷ [])
    ∷  -- its
        (105 ∷ 116 ∷ 115 ∷ 101 ∷ 108 ∷ 102 ∷ [])
    ∷  -- itself
        (108 ∷ 101 ∷ 116 ∷ 39 ∷ 115 ∷ [])
    ∷  -- let's
        (109 ∷ 101 ∷ [])
    ∷  -- me
        (109 ∷ 111 ∷ 114 ∷ 101 ∷ [])
    ∷  -- more
        (109 ∷ 111 ∷ 115 ∷ 116 ∷ [])
    ∷  -- most
        (109 ∷ 117 ∷ 115 ∷ 116 ∷ 110 ∷ 39 ∷ 116 ∷ [])
    ∷  -- mustn't
        (109 ∷ 121 ∷ [])
    ∷  -- my
        (109 ∷ 121 ∷ 115 ∷ 101 ∷ 108 ∷ 102 ∷ [])
    ∷  -- myself
        (110 ∷ 111 ∷ [])
    ∷  -- no
        (110 ∷ 111 ∷ 114 ∷ [])
    ∷  -- nor
        (110 ∷ 111 ∷ 116 ∷ [])
    ∷  -- not
        (111 ∷ 102 ∷ [])
    ∷  -- of
        (111 ∷ 102 ∷ 102 ∷ [])
    ∷  -- off
        (111 ∷ 110 ∷ [])
    ∷  -- on
        (111 ∷ 110 ∷ 99 ∷ 101 ∷ [])
    ∷  -- once
        (111 ∷ 110 ∷ 108 ∷ 121 ∷ [])
    ∷  -- only
        (111 ∷ 114 ∷ [])
    ∷  -- or
        (111 ∷ 116 ∷ 104 ∷ 101 ∷ 114 ∷ [])
    ∷  -- other
        (111 ∷ 117 ∷ 103 ∷ 104 ∷ 116 ∷ [])
    ∷  -- ought
        (111 ∷ 117 ∷ 114 ∷ [])
    ∷  -- our
        (111 ∷ 117 ∷ 114 ∷ 115 ∷ [])
    ∷  -- ours
        (111 ∷ 117 ∷ 114 ∷ 115 ∷ 101 ∷ 108 ∷ 118 ∷ 101 ∷ 115 ∷ [])
    ∷  -- ourselves
        (111 ∷ 117 ∷ 116 ∷ [])
    ∷  -- out
        (111 ∷ 118 ∷ 101 ∷ 114 ∷ [])
    ∷  -- over
        (111 ∷ 119 ∷ 110 ∷ [])
    ∷  -- own
        (115 ∷ 97 ∷ 109 ∷ 101 ∷ [])
    ∷  -- same
        (115 ∷ 104 ∷ 97 ∷ 110 ∷ 39 ∷ 116 ∷ [])
    ∷  -- shan't
        (115 ∷ 104 ∷ 101 ∷ [])
    ∷  -- she
        (115 ∷ 104 ∷ 101 ∷ 39 ∷ 100 ∷ [])
    ∷  -- she'd
        (115 ∷ 104 ∷ 101 ∷ 39 ∷ 108 ∷ 108 ∷ [])
    ∷  -- she'll
        (115 ∷ 104 ∷ 101 ∷ 39 ∷ 115 ∷ [])
    ∷  -- she's
        (115 ∷ 104 ∷ 111 ∷ 117 ∷ 108 ∷ 100 ∷ [])
    ∷  -- should
        (115 ∷ 104 ∷ 111 ∷ 117 ∷ 108 ∷ 100 ∷ 110 ∷ 39 ∷ 116 ∷ [])
    ∷  -- shouldn't
        (115 ∷ 111 ∷ [])
    ∷  -- so
        (115 ∷ 111 ∷ 109 ∷ 101 ∷ [])
    ∷  -- some
        (115 ∷ 117 ∷ 99 ∷ 104 ∷ [])
    ∷  -- such
        (116 ∷ 104 ∷ 97 ∷ 110 ∷ [])
    ∷  -- than
        (116 ∷ 104 ∷ 97 ∷ 116 ∷ [])
    ∷  -- that
        (116 ∷ 104 ∷ 97 ∷ 116 ∷ 39 ∷ 115 ∷ [])
    ∷  -- that's
        (116 ∷ 104 ∷ 101 ∷ [])
    ∷  -- the
        (116 ∷ 104 ∷ 101 ∷ 105 ∷ 114 ∷ [])
    ∷  -- their
        (116 ∷ 104 ∷ 101 ∷ 105 ∷ 114 ∷ 115 ∷ [])
    ∷  -- theirs
        (116 ∷ 104 ∷ 101 ∷ 109 ∷ [])
    ∷  -- them
        (116 ∷ 104 ∷ 101 ∷ 109 ∷ 115 ∷ 101 ∷ 108 ∷ 118 ∷ 101 ∷ 115 ∷ [])
    ∷  -- themselves
        (116 ∷ 104 ∷ 101 ∷ 110 ∷ [])
    ∷  -- then
        (116 ∷ 104 ∷ 101 ∷ 114 ∷ 101 ∷ [])
    ∷  -- there
        (116 ∷ 104 ∷ 101 ∷ 114 ∷ 101 ∷ 39 ∷ 115 ∷ [])
    ∷  -- there's
        (116 ∷ 104 ∷ 101 ∷ 115 ∷ 101 ∷ [])
    ∷  -- these
        (116 ∷ 104 ∷ 101 ∷ 121 ∷ [])
    ∷  -- they
        (116 ∷ 104 ∷ 101 ∷ 121 ∷ 39 ∷ 100 ∷ [])
    ∷  -- they'd
        (116 ∷ 104 ∷ 101 ∷ 121 ∷ 39 ∷ 108 ∷ 108 ∷ [])
    ∷  -- they'll
        (116 ∷ 104 ∷ 101 ∷ 121 ∷ 39 ∷ 114 ∷ 101 ∷ [])
    ∷  -- they're
        (116 ∷ 104 ∷ 101 ∷ 121 ∷ 39 ∷ 118 ∷ 101 ∷ [])
    ∷  -- they've
        (116 ∷ 104 ∷ 105 ∷ 115 ∷ [])
    ∷  -- this
        (116 ∷ 104 ∷ 111 ∷ 115 ∷ 101 ∷ [])
    ∷  -- those
        (116 ∷ 104 ∷ 114 ∷ 111 ∷ 117 ∷ 103 ∷ 104 ∷ [])
    ∷  -- through
        (116 ∷ 111 ∷ [])
    ∷  -- to
        (116 ∷ 111 ∷ 111 ∷ [])
    ∷  -- too
        (117 ∷ 110 ∷ 100 ∷ 101 ∷ 114 ∷ [])
    ∷  -- under
        (117 ∷ 110 ∷ 116 ∷ 105 ∷ 108 ∷ [])
    ∷  -- until
        (117 ∷ 112 ∷ [])
    ∷  -- up
        (118 ∷ 101 ∷ 114 ∷ 121 ∷ [])
    ∷  -- very
        (119 ∷ 97 ∷ 115 ∷ [])
    ∷  -- was
        (119 ∷ 97 ∷ 115 ∷ 110 ∷ 39 ∷ 116 ∷ [])
    ∷  -- wasn't
        (119 ∷ 101 ∷ [])
    ∷  -- we
        (119 ∷ 101 ∷ 39 ∷ 100 ∷ [])
    ∷  -- we'd
        (119 ∷ 101 ∷ 39 ∷ 108 ∷ 108 ∷ [])
    ∷  -- we'll
        (119 ∷ 101 ∷ 39 ∷ 114 ∷ 101 ∷ [])
    ∷  -- we're
        (119 ∷ 101 ∷ 39 ∷ 118 ∷ 101 ∷ [])
    ∷  -- we've
        (119 ∷ 101 ∷ 114 ∷ 101 ∷ [])
    ∷  -- were
        (119 ∷ 101 ∷ 114 ∷ 101 ∷ 110 ∷ 39 ∷ 116 ∷ [])
    ∷  -- weren't
        (119 ∷ 104 ∷ 97 ∷ 116 ∷ [])
    ∷  -- what
        (119 ∷ 104 ∷ 97 ∷ 116 ∷ 39 ∷ 115 ∷ [])
    ∷  -- what's
        (119 ∷ 104 ∷ 101 ∷ 110 ∷ [])
    ∷  -- when
        (119 ∷ 104 ∷ 101 ∷ 110 ∷ 39 ∷ 115 ∷ [])
    ∷  -- when's
        (119 ∷ 104 ∷ 101 ∷ 114 ∷ 101 ∷ [])
    ∷  -- where
        (119 ∷ 104 ∷ 101 ∷ 114 ∷ 101 ∷ 39 ∷ 115 ∷ [])
    ∷  -- where's
        (119 ∷ 104 ∷ 105 ∷ 99 ∷ 104 ∷ [])
    ∷  -- which
        (119 ∷ 104 ∷ 105 ∷ 108 ∷ 101 ∷ [])
    ∷  -- while
        (119 ∷ 104 ∷ 111 ∷ [])
    ∷  -- who
        (119 ∷ 104 ∷ 111 ∷ 39 ∷ 115 ∷ [])
    ∷  -- who's
        (119 ∷ 104 ∷ 111 ∷ 109 ∷ [])
    ∷  -- whom
        (119 ∷ 104 ∷ 121 ∷ [])
    ∷  -- why
        (119 ∷ 104 ∷ 121 ∷ 39 ∷ 115 ∷ [])
    ∷  -- why's
        (119 ∷ 105 ∷ 116 ∷ 104 ∷ [])
    ∷  -- with
        (119 ∷ 111 ∷ 110 ∷ 39 ∷ 116 ∷ [])
    ∷  -- won't
        (119 ∷ 111 ∷ 117 ∷ 108 ∷ 100 ∷ [])
    ∷  -- would
        (119 ∷ 111 ∷ 117 ∷ 108 ∷ 100 ∷ 110 ∷ 39 ∷ 116 ∷ [])
    ∷  -- wouldn't
        (121 ∷ 111 ∷ 117 ∷ [])
    ∷  -- you
        (121 ∷ 111 ∷ 117 ∷ 39 ∷ 100 ∷ [])
    ∷  -- you'd
        (121 ∷ 111 ∷ 117 ∷ 39 ∷ 108 ∷ 108 ∷ [])
    ∷  -- you'll
        (121 ∷ 111 ∷ 117 ∷ 39 ∷ 114 ∷ 101 ∷ [])
    ∷  -- you're
        (121 ∷ 111 ∷ 117 ∷ 39 ∷ 118 ∷ 101 ∷ [])
    ∷  -- you've
        (121 ∷ 111 ∷ 117 ∷ 114 ∷ [])
    ∷  -- your
        (121 ∷ 111 ∷ 117 ∷ 114 ∷ 115 ∷ [])
    ∷  -- yours
        (121 ∷ 111 ∷ 117 ∷ 114 ∷ 115 ∷ 101 ∷ 108 ∷ 102 ∷ [])
    ∷  -- yourself
        (121 ∷ 111 ∷ 117 ∷ 114 ∷ 115 ∷ 101 ∷ 108 ∷ 118 ∷ 101 ∷ 115 ∷ [])
    ∷  -- yourselves
        []
