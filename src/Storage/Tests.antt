-- ===== src/Storage/Tests.antt =====
-- Runs of the store on concrete paths.
use docpulse.Base.{◌≡◌, refl}
use docpulse.Text.Utf8.{str, utf8}
use docpulse.Storage.{local_store, clean, join}

clean_dots : clean (str "/a//b/./c/../d/") ≡ str "/a/b/d"
unfolding local_store utf8
clean_dots = refl

clean_above : clean (str "a/../../b") ≡ str "../b"
unfolding local_store utf8
clean_above = refl

clean_root : clean (str "/../..") ≡ str "/"
unfolding local_store utf8
clean_root = refl

clean_nothing : clean (str "a/..") ≡ str "."
unfolding local_store utf8
clean_nothing = refl

join_key : join (str "/tmp/docpulse") (str "t/j/a.pdf") ≡ str "/tmp/docpulse/t/j/a.pdf"
unfolding local_store utf8
join_key = refl
