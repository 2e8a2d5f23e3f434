-- ===== src/Masking/Twice.antt =====
-- What has been masked stays the same when it is masked again.
use claude_multi_agent.Base.{ℕ, suc, String, ◌≡◌, refl, ap₂, arith}
use claude_multi_agent.Json.{Json, Items, Fields}
use claude_multi_agent.Execute.Stream.{Text}
use claude_multi_agent.Masking.{sanitize_log_data, sanitize_items, sanitize_fields}

module _ (fold : String → Text) where
  mutual
    unfolding sanitize_log_data sanitize_items sanitize_fields

    -- Masking is idempotent, at every depth and whatever the data is.
    sanitize_log_data_twice :
        (depth : ℕ) (x : Json)
        → sanitize_log_data fold depth (sanitize_log_data fold depth x)
          ≡ sanitize_log_data fold depth x
    sanitize_log_data_twice depth (Json.arr xs) =
        let ih = sanitize_items_twice (suc depth) xs in ground arith
    sanitize_log_data_twice depth (Json.obj fs) =
        let ih = sanitize_fields_twice (suc depth) fs in ground arith
    sanitize_log_data_twice depth Json.null = refl
    sanitize_log_data_twice depth (Json.bool b) = refl
    sanitize_log_data_twice depth (Json.num n) = refl
    sanitize_log_data_twice depth (Json.str s) = refl

    sanitize_items_twice :
        (depth : ℕ) (xs : Items)
        → sanitize_items fold depth (sanitize_items fold depth xs) ≡ sanitize_items fold depth xs
    sanitize_items_twice depth Items.nil = refl
    sanitize_items_twice depth (Items.cons x xs) =
        ap₂ Items.cons (sanitize_log_data_twice depth x) (sanitize_items_twice depth xs)

    sanitize_fields_twice :
        (depth : ℕ) (fs : Fields)
        → sanitize_fields fold depth (sanitize_fields fold depth fs) ≡ sanitize_fields fold depth fs
    sanitize_fields_twice depth Fields.end = refl
    sanitize_fields_twice depth (Fields.field key v fs) =
        let here = sanitize_log_data_twice depth v in
        let rest = sanitize_fields_twice depth fs in ground arith
