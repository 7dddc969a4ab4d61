-- ===== src/Sec/Tags.antt =====
-- The XBRL tags of each figure (src/sec.ts), in order of priority, and the figures that are kept
-- (src/repositories/companyRepository.ts).
use edgar_radar.Prelude.{ℕ, String, List, [], ◌∷◌}

abbrev pub revenue_tags : List String
revenue_tags =
    "Revenues" ∷ "RevenueFromContractWithCustomerExcludingAssessedTax" ∷ "SalesRevenueNet"
    ∷ "SalesRevenueGoodsNet" ∷ "RevenueFromContractWithCustomerIncludingAssessedTax"
    ∷ "RevenuesNetOfInterestExpense" ∷ "RegulatedAndUnregulatedOperatingRevenue" ∷ []

abbrev pub net_income_tags : List String
net_income_tags = "NetIncomeLoss" ∷ "ProfitLoss" ∷ []

abbrev pub assets_tags : List String
assets_tags = "Assets" ∷ []

abbrev pub liabilities_tags : List String
liabilities_tags = "Liabilities" ∷ []

abbrev pub current_assets_tags : List String
current_assets_tags = "AssetsCurrent" ∷ []

abbrev pub current_liabilities_tags : List String
current_liabilities_tags = "LiabilitiesCurrent" ∷ []

abbrev pub retained_earnings_tags : List String
retained_earnings_tags = "RetainedEarningsAccumulatedDeficit" ∷ []

abbrev pub operating_income_tags : List String
operating_income_tags = "OperatingIncomeLoss" ∷ []

abbrev pub stockholders_equity_tags : List String
stockholders_equity_tags =
    "StockholdersEquity" ∷ "StockholdersEquityIncludingPortionAttributableToNoncontrollingInterest"
    ∷ []

abbrev pub operating_cash_flow_tags : List String
operating_cash_flow_tags =
    "NetCashProvidedByUsedInOperatingActivities"
    ∷ "NetCashProvidedByUsedInOperatingActivitiesContinuingOperations" ∷ []

abbrev pub long_term_debt_tags : List String
long_term_debt_tags =
    "LongTermDebtNoncurrent" ∷ "LongTermDebt" ∷ "LongTermDebtAndCapitalLeaseObligations" ∷ []

abbrev pub shares_outstanding_tags : List String
shares_outstanding_tags =
    "CommonStockSharesOutstanding" ∷ "WeightedAverageNumberOfSharesOutstandingBasic" ∷ []

abbrev pub gross_profit_tags : List String
gross_profit_tags = "GrossProfit" ∷ []

abbrev pub cost_of_revenue_tags : List String
cost_of_revenue_tags =
    "CostOfRevenue" ∷ "CostOfGoodsAndServicesSold"
    ∷ "CostOfGoodsAndServiceExcludingDepreciationDepletionAndAmortization" ∷ "CostOfGoodsSold" ∷ []

abbrev pub receivables_tags : List String
receivables_tags =
    "AccountsReceivableNetCurrent" ∷ "ReceivablesNetCurrent" ∷ "AccountsReceivableNet" ∷ []

abbrev pub ppe_tags : List String
ppe_tags = "PropertyPlantAndEquipmentNet" ∷ []

abbrev pub depreciation_tags : List String
depreciation_tags =
    "DepreciationDepletionAndAmortization" ∷ "DepreciationAmortizationAndAccretionNet"
    ∷ "Depreciation" ∷ "DepreciationAndAmortization" ∷ []

abbrev pub sga_tags : List String
sga_tags = "SellingGeneralAndAdministrativeExpense" ∷ []

abbrev pub selling_marketing_tags : List String
selling_marketing_tags = "SellingAndMarketingExpense" ∷ []

abbrev pub general_admin_tags : List String
general_admin_tags = "GeneralAndAdministrativeExpense" ∷ []

-- `ANNUAL_FACT_CONCEPTS`
abbrev pub annual_fact_concepts : List (List String × String)
annual_fact_concepts =
    (revenue_tags, "USD")
    ∷ (net_income_tags, "USD")
    ∷ (assets_tags, "USD")
    ∷ (liabilities_tags, "USD")
    ∷ (current_assets_tags, "USD")
    ∷ (current_liabilities_tags, "USD")
    ∷ (retained_earnings_tags, "USD")
    ∷ (operating_income_tags, "USD")
    ∷ (stockholders_equity_tags, "USD")
    ∷ (operating_cash_flow_tags, "USD")
    ∷ (long_term_debt_tags, "USD")
    ∷ (shares_outstanding_tags, "shares")
    ∷ (gross_profit_tags, "USD")
    ∷ (receivables_tags, "USD")
    ∷ (ppe_tags, "USD")
    ∷ (depreciation_tags, "USD")
    ∷ (sga_tags, "USD")
    ∷ (cost_of_revenue_tags, "USD")
    ∷ (selling_marketing_tags, "USD")
    ∷ (general_admin_tags, "USD")
    ∷ []

-- `ANNUAL_HISTORY_YEARS`
abbrev pub annual_history_years : ℕ
annual_history_years = 5
