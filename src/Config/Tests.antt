-- ===== src/Config/Tests.antt =====
-- Runs of the casts and of loading, over small stand-ins for yaml-cpp.
use siempre.Base.{
  zero, suc, ◌≡◌, refl, true, false, List, [], ◌∷◌, ◌++◌, Option, some, is_some, ap, Bytes, codes,
  append_assoc, append-nil, ◌∙◌, sym, map, same,
}
use siempre.Config.Cast.{Yaml}
use siempre.Config.Cast.RoundTrip.{IsYaml, IsYamlMap, put_nodes, Survives}
use siempre.Config.Cast.Unordered.{
  from_unordered_set, to_unordered_set, contents, unordered_set-Survives,
}
use mathlib.Core.List.Permᴰ
use siempre.Logger.Format.{warn, error, get_string_by_level}
use siempre.Logger.Loggers.{file, Logger}
use siempre.Config.Appenders.{YamlText, wrapper_from, wrapper_text}
use siempre.Config.Appenders.Wrapped.{IsYamlText, entry, made, wrapped, wrapped-Survives}
use siempre.Config.Appenders.Whole.{logger_text, logger_accumulates}

-- Nodes are texts, and a sequence is the bytes of its nodes, each raised by one, with 0 behind each.
abbrev coded : List Bytes → Bytes
coded [] = []
coded (n ∷ ns) = map suc n ++ (0 ∷ coded ns)

abbrev decoded : Bytes → Bytes → List Bytes
decoded read [] = []
decoded read (zero ∷ cs) = read ∷ decoded [] cs
decoded read (suc c ∷ cs) = decoded (read ++ (c ∷ [])) cs

abbrev paired : List Bytes → List (Bytes × Bytes)
paired [] = []
paired (k ∷ []) = []
paired (k ∷ v ∷ rest) = (k, v) ∷ paired rest

abbrev texts : Yaml
texts = record {
  Node = Bytes;
  load = λ s. some s;
  emit = λ n. n;
  sequence = coded;
  elements = decoded [];
  put = λ n k v. n ++ coded (k ∷ v ∷ []);
  members = λ n. paired (decoded [] n);
  is_map = λ n. false;
  is_scalar = λ n. true;
  scalar = λ n. n;
}

decoded_one :
    (read n rest : Bytes) → decoded read (map suc n ++ (0 ∷ rest)) ≡ (read ++ n) ∷ decoded [] rest
decoded_one read [] rest = rw (append-nil read) refl
decoded_one read (c ∷ n) rest =
    decoded_one (read ++ (c ∷ [])) n rest
    ∙ ap (λ r. r ∷ decoded [] rest) (append_assoc read (c ∷ []) n)

decoded-coded : (ns : List Bytes) → decoded [] (coded ns) ≡ ns
decoded-coded [] = refl
decoded-coded (n ∷ ns) = decoded_one [] n (coded ns) ∙ ap (λ r. n ∷ r) (decoded-coded ns)

texts-IsYaml : IsYaml texts
texts-IsYaml = record { load-emit = λ n. refl; elements-sequence = decoded-coded }

abbrev flat : List (Bytes × Bytes) → List Bytes
flat [] = []
flat (m ∷ ms) = m.0 ∷ m.1 ∷ flat ms

paired-flat : (ms : List (Bytes × Bytes)) → paired (flat ms) ≡ ms
paired-flat [] = refl
paired-flat (m ∷ ms) = ap (λ r. m ∷ r) (paired-flat ms)

coded-append : (ns ks : List Bytes) → coded (ns ++ ks) ≡ coded ns ++ coded ks
coded-append [] ks = refl
coded-append (n ∷ ns) ks =
    ap (λ r. map suc n ++ (0 ∷ r)) (coded-append ns ks)
    ∙ sym (append_assoc (map suc n) (0 ∷ coded ns) (coded ks))

put_flat :
    (ns : List Bytes) (ms : List (Bytes × Bytes))
    → put_nodes texts (coded ns) ms ≡ coded (ns ++ flat ms)
put_flat ns [] = ap coded (sym (append-nil ns))
put_flat ns (m ∷ ms) =
    ap (λ n. put_nodes texts n ms) (sym (coded-append ns (m.0 ∷ m.1 ∷ [])))
    ∙ put_flat (ns ++ (m.0 ∷ m.1 ∷ [])) ms
    ∙ ap coded (append_assoc ns (m.0 ∷ m.1 ∷ []) (flat ms))

texts-IsYamlMap : IsYamlMap texts
texts-IsYamlMap = record {
  load-emit = λ n. refl;
  members-put = λ ms p.
      ap (λ n. paired (decoded [] n)) (put_flat [] ms)
      ∙ ap paired (decoded-coded (flat ms))
      ∙ paired-flat ms;
}

abbrev keep : Bytes → Option Bytes
keep s = some s

abbrev survives :
    (a : Bytes)
    → (s : Bytes) × (n : Bytes) × (keep a ≡ some s)
      × (texts.load s ≡ some n)
      × (keep (texts.emit n) ≡ some a)
survives a = (a, a, refl, refl, refl)

-- A table that iterates the latest element first.
abbrev latest_first {ℓ} : {A : Type ℓ} → List A → List A
latest_first [] = []
latest_first (x ∷ []) = x ∷ []
latest_first (x ∷ z ∷ xs) = z ∷ x ∷ xs

unordered_set-Survives_example :
    (s : Bytes) × (ys : List Bytes) × (from_unordered_set texts keep latest_first
        (codes "a" ∷ codes "b" ∷ [])
      ≡ some s)
    × (to_unordered_set texts same keep s ≡ some ys)
    × (contents ys ≡ contents (codes "a" ∷ codes "b" ∷ []))
unordered_set-Survives_example =
    unordered_set-Survives texts keep keep same latest_first (codes "a" ∷ codes "b" ∷ [])
      texts-IsYaml (Permᴰ.swap refl refl) (survives (codes "a"), (survives (codes "b"), tt))
      (((refl, refl), tt), (tt, tt))

abbrev texts_text : YamlText texts
texts_text = record {
  text_node = λ s. s;
  get = λ n k. entry (texts.members n) k;
  as_text = λ n. some n;
}

texts-IsYamlText : IsYamlText texts texts_text
texts-IsYamlText = record {
  load-emit = λ n. refl;
  scalar_text = λ s. refl;
  get-put = λ ms k n p e. ap (λ q. entry q k) (texts-IsYamlMap.members-put ms p) ∙ e;
}

abbrev log_file : Bytes
log_file = codes "/tmp/log"

wrapped-Survives_example :
    Survives texts
      (wrapper_from texts texts_text (λ path. true))
      (wrapper_text texts texts_text)
      (wrapped (file log_file) warn (codes "%d%T%m"))
wrapped-Survives_example =
    wrapped-Survives texts texts_text (λ path. true) (file log_file) warn (codes "%d%T%m")
      texts-IsYamlText (refl, log_file, refl, refl)

abbrev to_file : Logger
to_file = record {
  name = codes "net";
  appenders = made (file log_file) warn (codes "%m") ∷ [];
  level = error;
}

logger_accumulates_example : is_some (logger_text texts texts_text to_file) ≡ true
logger_accumulates_example =
    ap is_some
      (logger_accumulates texts texts_text (λ path. true) (codes "net") error
        ((file log_file, warn, codes "%m") ∷ []) [] (codes "net") (get_string_by_level error)
        texts-IsYaml texts-IsYamlText ((refl, log_file, refl, refl), tt) refl refl refl refl).2
