-- ===== src/Tests/Memory.antt =====
-- A Redis in memory that splits a command at its spaces, and what the daemon does on it.
use signup_daemon.Prelude.{
  ℕ, all, not, ◌≤◌, ◌≡◌, refl, ◌∙◌, ap, true, false, Option, none, some, List, [], ◌∷◌, ◌++◌, codes,
  ◌==◌, if◌then◌else◌, arith, &&_true, append_assoc, holds_below, holds_below_at,
}
use signup_daemon.Js.Strings.{is_empty, Text, text_eq, decimal, to_string}
use signup_daemon.Js.Json.Read.{read_number}
use signup_daemon.Js.Json.RoundTrip.{read_number-decimal}
use signup_daemon.Daemon.Redis.{Redis, Reply, error, nil, status, string, number}
use signup_daemon.Daemon.Store.{
  Store, View, Entry, text, count, user, IsRedis, put, known, next_count, takes_user, new_fields,
  is_word, is_word_char,
}

pub record Memory : Type 0 where
  pub current : ℕ
  pub entries : Store

abbrev pub view : View Memory
view = record { store = λ s. s.entries; current = λ s. s.current }

abbrev grow : ℕ → List Text → List Text
grow c [] = (c ∷ []) ∷ []
grow c (w ∷ ws) = (c ∷ w) ∷ ws

abbrev words : Text → List Text
words [] = [] ∷ []
words (c ∷ s) = let rest = words s in if c == b' ' then [] ∷ rest else grow c rest

word_char : (c : ℕ) → is_word_char c ≡ true → (c == b' ') ≡ false
word_char c h = ground arith

one_word : (w : Text) → all is_word_char w ≡ true → words w ≡ w ∷ []
one_word [] h = refl
one_word (c ∷ w) h =
    let (here, later) = &&_true (is_word_char c) _ h in rw (word_char c here, one_word w later)

first_word : (w s : Text) → all is_word_char w ≡ true → words (w ++ b' ' ∷ s) ≡ w ∷ words s
first_word [] s h = refl
first_word (c ∷ w) s h =
    let (here, later) = &&_true (is_word_char c) _ h in rw (word_char c here, first_word w s later)

words-word : (w : Text) → is_word w ≡ true → words w ≡ w ∷ []
words-word w h = let (_, chars) = &&_true (not (is_empty w)) _ h in one_word w chars

words-append : (w s : Text) → is_word w ≡ true → words (w ++ b' ' ∷ s) ≡ w ∷ words s
words-append w s h = let (_, chars) = &&_true (not (is_empty w)) _ h in first_word w s chars

abbrev get : Option Entry → Reply
get none = nil
get (some (text t)) = string t
get (some e) = error

abbrev hget : Text → Option Entry → Reply
hget field none = nil
hget field (some (user hash salt)) = string (if text_eq field (codes "hash") then hash else salt)
hget field (some e) = error

abbrev incr : Text → Option ℕ → Memory → Reply × Memory
incr key none s = (error, s)
incr key (some n) s = (number n, record s { entries = put s.current key (count n) s.entries })

abbrev hset : Text → Text → Text → Memory → Reply × Memory
hset key hash salt s =
    let there = s.entries s.current key in
    if takes_user there
    then (
      number (new_fields there),
      record s { entries = put s.current key (user hash salt) s.entries },
    )
    else (error, s)

-- The commands with a key and a value or a field.
abbrev act_on : Text → Text → List Text → Memory → Reply × Memory
act_on name key (value ∷ args) s =
    if text_eq name (codes "SET")
    then (status, record s { entries = put s.current key (text value) s.entries })
    else if text_eq name (codes "HGET")
    then (hget value (s.entries s.current key), s)
    else (error, s)
act_on name key [] s = (error, s)

-- The fields of a record.
abbrev act_many : Text → List Text → Memory → Reply × Memory
act_many key (f ∷ hash ∷ g ∷ salt ∷ args) s = hset key hash salt s
act_many key args s = (error, s)

abbrev act : List Text → Memory → Reply × Memory
act (name ∷ key ∷ args) s =
    let there = s.entries s.current key in
    if text_eq name (codes "AUTH")
    then (status, s)
    else if text_eq name (codes "SELECT")
    then (status, record s { current = (read_number 0 (key ++ b' ' ∷ [])).0 })
    else if text_eq name (codes "GET")
    then (get there, s)
    else if text_eq name (codes "EXISTS")
    then (number (known there), s)
    else if text_eq name (codes "INCR")
    then incr key (next_count there) s
    else if text_eq name (codes "EXPIRE")
    then (number (known there), s)
    else if text_eq name (codes "HSET")
    then act_many key args s
    else act_on name key args s
act _ s = (error, s)

abbrev pub redis : Redis Memory
redis = record {
  connect = λ s. (true, s);
  command = λ command s. act (words command) s;
  strtol = λ t. none;
  password = codes "secret";
}

set_words :
    (key value : Text) (ttl : ℕ)
    → is_word key ≡ true
    → is_word value ≡ true
    → words (codes "SET " ++ key ++ b' ' ∷ value ++ codes " EX " ++ decimal ttl)
      ≡ codes "SET" ∷ key ∷ value ∷ words (codes "EX " ++ decimal ttl)
set_words key value ttl word word' = rw (
  append_assoc key (b' ' ∷ value) (codes " EX "),
  append_assoc key (b' ' ∷ value ++ codes " EX ") (decimal ttl),
  words-append key (value ++ codes " EX " ++ decimal ttl) word,
  append_assoc value (codes " EX ") (decimal ttl),
  words-append value (codes "EX " ++ decimal ttl) word',
)

hset_words :
    (key hash salt : Text)
    → is_word key ≡ true
    → is_word hash ≡ true
    → is_word salt ≡ true
    → words (
        codes "HSET "
        ++ key
        ++ b' '
          ∷ (codes "hash " ++ hash ++ codes " salt " ++ salt ++ codes " level 0 status active"))
      ≡ codes "HSET"
        ∷ key
        ∷ codes "hash"
        ∷ hash
        ∷ codes "salt"
        ∷ salt
        ∷ words (codes "level 0 status active")
hset_words key hash salt word word' word'' = rw (
  words-append key _ word,
  append_assoc hash (codes " salt ") salt,
  append_assoc hash (codes " salt " ++ salt) (codes " level 0 status active"),
  words-append hash _ word',
  words-append salt _ word'',
)

abbrev memory_on : ℕ → Memory → Reply × Memory
memory_on n s = (status, record s { current = n })

small_words : holds_below 16 (λ n. is_word (decimal n)) ≡ true
unfolding holds_below to_string
small_words = refl

select_word :
    (db : ℕ) (s : Memory) → db ≤ 15 → act (words (codes "SELECT " ++ decimal db)) s ≡ memory_on db s
select_word db s small =
    let word = holds_below_at (λ n. is_word (decimal n)) 16 db (omega arith) small_words in
    rw (words-word (decimal db) word, read_number-decimal db b' ' [] refl) refl

pub memory : IsRedis redis view
memory = record {
  connects = λ s. (s, refl, refl);
  authorises = λ s. (s, refl, refl);
  selects = λ s db small. (_, select_word db s small, refl, refl);
  gets = λ s key word e. record {
    to = s;
    runs = rw (words-word key word, e);
    holds = refl;
    same_database = refl;
  };
  hgets_hash = λ s key word e. record {
    to = s;
    runs = rw (words-append key (codes "hash") word, e);
    holds = refl;
    same_database = refl;
  };
  hgets_salt = λ s key word e. record {
    to = s;
    runs = rw (words-append key (codes "salt") word, e);
    holds = refl;
    same_database = refl;
  };
  tells = λ s key word. record {
    to = s;
    runs = rw (words-word key word);
    holds = refl;
    same_database = refl;
  };
  counts = λ s key word e. record {
    to = _;
    runs = rw (words-word key word, e);
    holds = refl;
    same_database = refl;
  };
  expires = λ s key ttl word e expiry. record {
    to = s;
    runs = rw (words-append key (decimal ttl) word, e);
    holds = refl;
    same_database = refl;
  };
  sets = λ s key value ttl word word' expiry. record {
    to = record s { entries = put s.current key (text value) s.entries };
    runs = ap (λ ws. act ws s) (set_words key value ttl word word');
    holds = refl;
    same_database = refl;
  };
  hsets = λ s key hash salt word word' word'' free. record {
    to = record s { entries = put s.current key (user hash salt) s.entries };
    runs = ap (λ ws. act ws s) (hset_words key hash salt word word' word'') ∙ rw free;
    holds = refl;
    same_database = refl;
  };
}
