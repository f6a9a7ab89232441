-- ===== src/Gui/Info/Reads.antt =====
-- The text of the server's `INFO`, hkv-server/src/server.rs, as
-- hkv-gui/src-tauri/src/server_manager.rs reads it.
use hybird_kv.Prelude.{
  ℕ, ◌≤◌, ◌<◌, ◌==◌, ◌&&◌, not, leb, Bool, true, ◌^◌, ◌≡◌, refl, ◌∙◌, ap, some, false, List, [],
  ◌∷◌, ◌++◌, Bytes, bytes, bytes_eq, arith,
}
use hybird_kv.Prelude.Float.{Float, Visible}
use hybird_kv.Common.Numbers.{show, show-Digits, parse_uint-show}
use hybird_kv.Gui.Text.{is_whitespace, is_empty, lines}
use hybird_kv.Gui.Text.Lines.{
  NoSpace, NoSpace-append, Digits-NoSpace, trim-NoSpace, lines-append, Without, split_once-append,
}
use hybird_kv.Gui.Models.{Result, ok, err, ◌>>=◌}
use hybird_kv.Gui.Info.{
  Seen, parsed, on_field, on_line, on_lines, unseen, finish, parse_info_snapshot, u64_max,
  InfoError,
}
use hybird_kv.Server.Info.{
  MetricsSnapshot, qps, error_rate, average_us, percentile_us, unwrap_or_zero, unwrap_or_zero_f64,
  info_fields, render, handle_info,
}

-- A line whose name and value come apart again.
abbrev pub Clean : Bytes × Bytes → Type 0
Clean (name, value) = NoSpace name × Without b':' name × NoSpace value

abbrev pub AllClean : List (Bytes × Bytes) → Type 0
AllClean [] = Unit
AllClean (p ∷ ps) = Clean p × AllClean ps

Visible-NoSpace : (s : Bytes) → Visible s → NoSpace s
unfolding is_whitespace
Visible-NoSpace [] v = tt
Visible-NoSpace (c ∷ cs) v = (visible c v.0 v.1, Visible-NoSpace cs v.2)
  where
    visible : (c : ℕ) → 33 ≤ c → c ≤ 126 → is_whitespace c ≡ false
    visible c h k = ground arith

is_name : Bytes → Bool
is_name [] = true
is_name (c ∷ cs) = leb 33 c && leb c 126 && not (c == b':') && is_name cs

is_name-Clean : (name : Bytes) → is_name name ≡ true → Visible name × Without b':' name
unfolding is_name
is_name-Clean [] h = (tt, tt)
is_name-Clean (c ∷ cs) h =
    let (v, w) = is_name-Clean cs (ground arith) in
    ((ground arith, ground arith, v), (ground arith, w))

clean : (name value : Bytes) → is_name name ≡ true → NoSpace value → Clean (name, value)
clean name value h v = let (a, b) = is_name-Clean name h in (Visible-NoSpace name a, b, v)

not_empty : (name value : Bytes) → is_empty (name ++ b':' ∷ value) ≡ false
not_empty [] value = refl
not_empty (c ∷ cs) value = refl

joined-NoSpace : (name value : Bytes) → Clean (name, value) → NoSpace (name ++ b':' ∷ value)
unfolding is_whitespace
joined-NoSpace name value c = NoSpace-append name (b':' ∷ value) c.0 (refl, c.2)

module _ {F : Type 0} ⦃f : Float F⦄ where
  abbrev on_fields : Seen F → List (Bytes × Bytes) → Result (Seen F) InfoError
  on_fields s [] = ok s
  on_fields s ((name, value) ∷ rest) = do s' ← on_field s name value; on_fields s' rest

  on_line_lem :
      (s : Seen F) (name value : Bytes)
      → Clean (name, value)
      → on_line s (name ++ b':' ∷ value) ≡ on_field s name value
  unfolding on_line
  on_line_lem s name value c =
      rw (trim-NoSpace (name ++ b':' ∷ value) (joined-NoSpace name value c))
        (rw (not_empty name value) (rw (split_once-append b':' name value c.1)))

  go_on :
      (r : Result (Seen F) InfoError) (g h : Seen F → Result (Seen F) InfoError)
      → ((s : Seen F) → g s ≡ h s)
      → (r >>= g) ≡ (r >>= h)
  go_on (ok s) g h e = e s
  go_on (err i) g h e = refl

  on_lines-render :
      (fields : List (Bytes × Bytes)) (s : Seen F)
      → AllClean fields
      → on_lines s (lines (render fields)) ≡ on_fields s fields
  unfolding render on_lines lines
  on_lines-render [] s c = refl
  on_lines-render ((name, value) ∷ fields) s c =
      rw (lines-append (name ++ b':' ∷ value) (render fields) (joined-NoSpace name value c.0)) (
        rw (on_line_lem s name value c.0)
          (go_on (on_field s name value) _ _ (λ s'. on_lines-render fields s' c.1)))

module _ (F : Type 0) ⦃f : Float F⦄ where
  info_fields-AllClean : (s : MetricsSnapshot) → AllClean (info_fields F s)
  unfolding info_fields is_name
  info_fields-AllClean s = (
    clean (bytes "role") (bytes "master") refl (Visible-NoSpace (bytes "master") (omega arith)),
    (
      clean (bytes "engine") (bytes "hybridkv") refl
          (Visible-NoSpace (bytes "hybridkv") (omega arith)),
      (
        number (bytes "requests_total") s.requests_total refl,
        (
          number (bytes "errors_total") s.errors_total refl,
          (
            number (bytes "inflight") s.inflight refl,
            (
              decimal (bytes "uptime_sec") (f.as_secs s.uptime) refl,
              (
                decimal (bytes "qps_avg") (qps s) refl,
                (
                  decimal (bytes "error_rate") (error_rate s) refl,
                  (
                    number (bytes "latency_samples") s.latency.samples refl,
                    (
                      decimal (bytes "latency_avg_us") (unwrap_or_zero_f64 (average_us s.latency))
                          refl,
                      (
                        number (bytes "latency_max_us") s.latency.max_us refl,
                        (
                          number (bytes "latency_p50_us")
                              (unwrap_or_zero (percentile_us s.latency (f.tenths 500))) refl,
                          (
                            number (bytes "latency_p90_us")
                                (unwrap_or_zero (percentile_us s.latency (f.tenths 900))) refl,
                            (
                              number (bytes "latency_p99_us")
                                  (unwrap_or_zero (percentile_us s.latency (f.tenths 990))) refl,
                              (
                                number (bytes "latency_p999_us")
                                    (unwrap_or_zero (percentile_us s.latency (f.tenths 999))) refl,
                                tt,
                              ),
                            ),
                          ),
                        ),
                      ),
                    ),
                  ),
                ),
              ),
            ),
          ),
        ),
      ),
    ),
  )
    where
      number : (name : Bytes) (n : ℕ) → is_name name ≡ true → Clean (name, show n)
      number name n h = clean name (show n) h (Digits-NoSpace (show n) (show-Digits n))

      decimal : (name : Bytes) (x : F) → is_name name ≡ true → Clean (name, f.show3 x)
      decimal name x h = clean name (f.show3 x) h (Visible-NoSpace (f.show3 x) (f.show3-Visible x))

  on_info :
      (s : MetricsSnapshot)
      → s.requests_total < 2 ^ 64
      → on_fields (unseen {F = F}) (info_fields F s)
        ≡ ok (record (unseen {F = F}) {
          role = some (bytes "master");
          requests_total = s.requests_total;
          qps_avg = f.round3 (qps s);
          uptime_seconds = f.floor_u64 (f.round3 (f.as_secs s.uptime));
        })
  unfolding info_fields on_field bytes_eq parsed
  on_info s h = rw (
    parse_uint-show u64_max s.requests_total (omega arith) h,
    f.parse-show3 (f.as_secs s.uptime),
    f.parse-show3 (qps s),
  )

  -- The application reads the `INFO` of the server, when fewer than 2^64 requests are counted: the
  -- count of requests is exact, the rate and the time are those of the server rounded to three
  -- decimals and then to a whole number, and clients, memory, hits and misses are zero, since the
  -- server does not send them.
  pub handle_info-parse_info_snapshot :
      (captured_at : Bytes) (s : MetricsSnapshot)
      → s.requests_total < 2 ^ 64
      → parse_info_snapshot F captured_at (handle_info F s)
        ≡ ok (record {
          captured_at = captured_at;
          role = bytes "master";
          connected_clients = 0;
          used_memory = 0;
          total_commands_processed = s.requests_total;
          instantaneous_ops_per_sec = f.round_u64 (f.round3 (qps s));
          keyspace_hits = 0;
          keyspace_misses = 0;
          uptime_seconds = f.floor_u64 (f.round3 (f.as_secs s.uptime));
        })
  unfolding parse_info_snapshot handle_info unseen
  handle_info-parse_info_snapshot captured_at s h =
      ap (λ r. r >>= finish captured_at)
        (on_lines-render (info_fields F s) unseen (info_fields-AllClean s) ∙ on_info s h)
