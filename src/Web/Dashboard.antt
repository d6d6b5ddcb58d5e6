-- ===== src/Web/Dashboard.antt =====
-- internal/web/models.go: NewDashboard. A float64, its printing, and the reading and printing of days
-- are parameters; `now` is the reading of the clock, in nanoseconds since the year 1.
use nx_cache.Common.{
  ℕ, ◌-◌, ◌+◌, ◌/◌, Bool, Option, none, some, List, [], ◌∷◌, ◌++◌, ltb, ◌==◌, if◌then◌else◌, sum_by,
  Text, codes, Int64, natural, negative, Time, map,
}
use nx_cache.Metrics.{MetricsSnapshot}
use nx_cache.Store.Types.{label, Entry, Stats, DayStat, KindCount}
use nx_cache.Server.Pages.{short_hash}
use nx_cache.Web.{format_age, format_bytes, kind_pie_color, Printer}

-- `no_digit` and `two_digits` are the verbs %.0f and %.2f, `month_day` the form `Jan 02` of a day
-- that is well formed, and `minutes` the form of a time in the list of entries.
pub record Numbers : Type 1 where
  pub F : Type 0
  pub zero_float : F
  pub hundred : F
  pub of_int : ℕ → F
  pub plus : F → F → F
  pub times : F → F → F
  pub over : F → F → F
  pub is_zero_float : F → Bool
  pub no_digit : F → Text
  pub two_digits : F → Text
  pub month_day : Text → Option Text
  pub minutes : Time → Text

pub record EntryView : Type 0 where
  pub hash : Text
  pub hash_short : Text
  pub label : Text
  pub kind : Text
  pub project : Text
  pub target : Text
  pub config : Text
  pub size : Text
  pub age : Text
  pub hits : ℕ
  pub last_access : Text
  pub created : Text

pub record KindLegend : Type 0 where
  pub kind : Text
  pub count : ℕ
  pub percent : Text
  pub color_style : Text

-- now.Sub(t)
abbrev pub since : Time → Time → Int64
since now t = if ltb now t then negative (t - now - 1) else natural (now - t)

-- strings.Join(parts, ", ")
unfoldable pub join_comma : List Text → Text
join_comma [] = []
join_comma (p ∷ []) = p
join_comma (p ∷ q ∷ ps) = p ++ codes ", " ++ join_comma (q ∷ ps)

unfoldable pub page_count : ℕ → ℕ → ℕ
page_count total size = let pages = (total + size - 1) / size in if ltb pages 1 then 1 else pages

abbrev pub day_total : DayStat → ℕ
day_total d = d.hits + d.misses

-- The loop for maxDay.
unfoldable pub max_day : ℕ → List DayStat → ℕ
max_day most [] = most
max_day most (d ∷ days) = max_day (if ltb most (day_total d) then day_total d else most) days

module _ (num : Numbers) (p : Printer) where
  pub record DayBar : Type 0 where
    pub label : Text
    pub hits : ℕ
    pub misses : ℕ
    pub hit_width : num.F
    pub miss_width : num.F

  pub record Dashboard : Type 0 where
    pub username : Text
    pub csrf_token : Text
    pub ttl : Text
    pub query : Text
    pub page : ℕ
    pub pages : ℕ
    pub total : ℕ
    pub message : Text
    pub stats : Stats
    pub kinds : List KindCount
    pub entries : List EntryView
    pub hit_bar_width : num.F
    pub miss_bar_width : num.F
    pub latency : MetricsSnapshot
    pub day_bars : List DayBar
    pub kind_pie_style : Text
    pub kind_legend : List KindLegend

  unfoldable pub entry_view : Time → Entry → EntryView
  unfolding short_hash label format_bytes format_age
  entry_view now e = record {
    hash = e.hash;
    hash_short = short_hash e.hash;
    label = label e.info;
    kind = e.info.kind;
    project = e.info.project;
    target = e.info.target;
    config = e.info.config;
    size = format_bytes p e.size;
    age = format_age (since now e.created_at);
    hits = e.hits;
    last_access = format_age (since now e.last_accessed_at) ++ codes " ago";
    created = num.minutes e.created_at;
  }

  -- float64(part) / float64(whole) * 100
  abbrev pub percent_of : ℕ → ℕ → num.F
  percent_of part whole = num.times (num.over (num.of_int part) (num.of_int whole)) num.hundred

  -- The width of a bar: float64(part) / (hits + misses) * 100, in floats.
  unfoldable pub bar_width : ℕ → ℕ → ℕ → num.F
  bar_width part hits misses =
      let sum = num.plus (num.of_int hits) (num.of_int misses) in
      if num.is_zero_float sum
      then num.zero_float
      else num.times (num.over (num.of_int part) sum) num.hundred

  abbrev pub day_label : Text → Option Text → Text
  day_label day none = day
  day_label day (some text) = text

  unfoldable pub day_bar : ℕ → DayStat → DayBar
  day_bar most d = record {
    label = day_label d.day (num.month_day d.day);
    hits = d.hits;
    misses = d.misses;
    hit_width = (if ltb 0 most then percent_of d.hits most else num.zero_float);
    miss_width = (if ltb 0 most then percent_of d.misses most else num.zero_float);
  }

  abbrev pub pie_end : ℕ → num.F → KindCount → num.F
  pie_end total start k = num.plus start (percent_of k.count total)

  -- The parts of the pie from an index on, and where the first one starts.
  unfoldable pub pie_parts : ℕ → ℕ → num.F → List KindCount → List Text
  unfolding kind_pie_color
  pie_parts total i start [] = []
  pie_parts total i start (k ∷ kinds) =
      (kind_pie_color k.kind i
        ++ codes " "
        ++ num.two_digits start
        ++ codes "% "
        ++ num.two_digits (pie_end total start k)
        ++ codes "%")
      ∷ pie_parts total (i + 1) (pie_end total start k) kinds

  unfoldable pub legend : ℕ → ℕ → List KindCount → List KindLegend
  unfolding kind_pie_color
  legend total i [] = []
  legend total i (k ∷ kinds) =
      record {
        kind = k.kind;
        count = k.count;
        percent = num.no_digit (percent_of k.count total) ++ codes "%";
        color_style = codes "background-color: " ++ kind_pie_color k.kind i;
      }
      ∷ legend total (i + 1) kinds

  abbrev pub pie_style : List Text → Text
  pie_style [] = codes "background: var(--muted)"
  pie_style (part ∷ parts) =
      codes "background: conic-gradient(" ++ join_comma (part ∷ parts) ++ codes ")"

  abbrev pub kind_total : List KindCount → ℕ
  kind_total kinds = sum_by (λ k. k.count) kinds

  -- The loop over the kinds ends at once if they count nothing.
  abbrev pub counted : List KindCount → List KindCount
  counted kinds = if kind_total kinds == 0 then [] else kinds

  unfoldable pub new_dashboard :
      Time
      → Text
      → Text
      → Text
      → Text
      → Text
      → ℕ
      → ℕ
      → Stats
      → List Entry
      → ℕ
      → MetricsSnapshot
      → Dashboard
  unfolding entry_view bar_width day_bar max_day pie_parts legend join_comma page_count
  new_dashboard now username csrf_token ttl query message page size stats entries total latency =
      let kinds = counted stats.by_kind in
      let whole = kind_total stats.by_kind in
      record {
        username = username;
        csrf_token = csrf_token;
        ttl = ttl;
        query = query;
        page = (if ltb page 1 then 1 else page);
        pages = page_count total size;
        total = total;
        message = message;
        stats = stats;
        kinds = stats.by_kind;
        entries = map (entry_view now) entries;
        hit_bar_width = bar_width stats.hits stats.hits stats.misses;
        miss_bar_width = bar_width stats.misses stats.hits stats.misses;
        latency = latency;
        day_bars = map (day_bar (max_day 0 stats.days)) stats.days;
        kind_pie_style = pie_style (pie_parts whole 0 num.zero_float kinds);
        kind_legend = legend whole 0 kinds;
      }
