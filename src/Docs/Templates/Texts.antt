-- ===== src/Docs/Templates/Texts.antt =====
-- docs/_build/html/_static/websupport.js: the templates of the comments.
use forwarding_explorer.Base.{◌++◌}
use forwarding_explorer.Docs.Text.{Text, units}

abbrev pub popup_template : Text
popup_template =
    units "    <div class=\"sphinx-comments\" id=\"sc<%id%>\">"
    ++ units "      <p class=\"sort-options\">"
    ++ units "        Sort by:"
    ++ units "        <a href=\"#\" class=\"sort-option byrating\">best rated</a>"
    ++ units "        <a href=\"#\" class=\"sort-option byascage\">newest</a>"
    ++ units "        <a href=\"#\" class=\"sort-option byage\">oldest</a>"
    ++ units "      </p>"
    ++ units "      <div class=\"comment-header\">Comments</div>"
    ++ units "      <div class=\"comment-loading\" id=\"cn<%id%>\">"
    ++ units "        loading comments... <img src=\"<%loadingImage%>\" alt=\"\" /></div>"
    ++ units "      <ul id=\"cl<%id%>\" class=\"comment-ul\"></ul>"
    ++ units "      <div id=\"ca<%id%>\">"
    ++ units "      <p class=\"add-a-comment\">Add a comment"
    ++ units "        (<a href=\"#\" class=\"comment-markup\" id=\"ab<%id%>\">markup</a>):</p>"
    ++ units "      <div class=\"comment-markup-box\" id=\"mb<%id%>\">"
    ++ units "        reStructured text markup: <i>*emph*</i>, <b>**strong**</b>, "
    ++ units "        <code>``code``</code>, "
    ++ units "        code blocks: <code>::</code> and an indented block after blank line</div>"
    ++ units "      <form method=\"post\" id=\"cf<%id%>\" class=\"comment-form\" action=\"\">"
    ++ units "        <textarea name=\"comment\" cols=\"80\"></textarea>"
    ++ units "        <p class=\"propose-button\">"
    ++ units "          <a href=\"#\" id=\"pc<%id%>\" class=\"show-propose-change\">"
    ++ units "            Propose a change &#9657;"
    ++ units "          </a>"
    ++ units "          <a href=\"#\" id=\"hc<%id%>\" class=\"hide-propose-change\">"
    ++ units "            Propose a change &#9663;"
    ++ units "          </a>"
    ++ units "        </p>"
    ++ units "        <textarea name=\"proposal\" id=\"pt<%id%>\" cols=\"80\""
    ++ units "                  spellcheck=\"false\"></textarea>"
    ++ units "        <input type=\"submit\" value=\"Add comment\" />"
    ++ units "        <input type=\"hidden\" name=\"node\" value=\"<%id%>\" />"
    ++ units "        <input type=\"hidden\" name=\"parent\" value=\"\" />"
    ++ units "      </form>"
    ++ units "      </div>"
    ++ units "    </div>"

abbrev pub comment_template : Text
comment_template =
    units "    <div id=\"cd<%id%>\" class=\"sphinx-comment<%css_class%>\">"
    ++ units "      <div class=\"vote\">"
    ++ units "        <div class=\"arrow\">"
    ++ units "          <a href=\"#\" id=\"uv<%id%>\" class=\"vote\" title=\"vote up\">"
    ++ units "            <img src=\"<%upArrow%>\" />"
    ++ units "          </a>"
    ++ units "          <a href=\"#\" id=\"uu<%id%>\" class=\"un vote\" title=\"vote up\">"
    ++ units "            <img src=\"<%upArrowPressed%>\" />"
    ++ units "          </a>"
    ++ units "        </div>"
    ++ units "        <div class=\"arrow\">"
    ++ units "          <a href=\"#\" id=\"dv<%id%>\" class=\"vote\" title=\"vote down\">"
    ++ units "            <img src=\"<%downArrow%>\" id=\"da<%id%>\" />"
    ++ units "          </a>"
    ++ units "          <a href=\"#\" id=\"du<%id%>\" class=\"un vote\" title=\"vote down\">"
    ++ units "            <img src=\"<%downArrowPressed%>\" />"
    ++ units "          </a>"
    ++ units "        </div>"
    ++ units "      </div>"
    ++ units "      <div class=\"comment-content\">"
    ++ units "        <p class=\"tagline comment\">"
    ++ units "          <span class=\"user-id\"><%username%></span>"
    ++ units "          <span class=\"rating\"><%pretty_rating%></span>"
    ++ units "          <span class=\"delta\"><%time.delta%></span>"
    ++ units "        </p>"
    ++ units "        <div class=\"comment-text comment\"><#text#></div>"
    ++ units "        <p class=\"comment-opts comment\">"
    ++ units "          <a href=\"#\" class=\"reply hidden\" id=\"rl<%id%>\">reply &#9657;</a>"
    ++ units "          <a href=\"#\" class=\"close-reply\" id=\"cr<%id%>\">reply &#9663;</a>"
    ++ units "          <a href=\"#\" id=\"sp<%id%>\" class=\"show-proposal\">proposal &#9657;</a>"
    ++ units "          <a href=\"#\" id=\"hp<%id%>\" class=\"hide-proposal\">proposal &#9663;</a>"
    ++ units "          <a href=\"#\" id=\"dc<%id%>\" class=\"delete-comment hidden\">delete</a>"
    ++ units "          <span id=\"cm<%id%>\" class=\"moderation hidden\">"
    ++ units "            <a href=\"#\" id=\"ac<%id%>\" class=\"accept-comment\">accept</a>"
    ++ units "          </span>"
    ++ units "        </p>"
    ++ units "        <pre class=\"proposal\" id=\"pr<%id%>\">"
    ++ units "<#proposal_diff#>"
    ++ units "        </pre>"
    ++ units "          <ul class=\"comment-children\" id=\"cl<%id%>\"></ul>"
    ++ units "        </div>"
    ++ units "        <div class=\"clearleft\"></div>"
    ++ units "      </div>"
    ++ units "    </div>"

abbrev pub reply_template : Text
reply_template =
    units "    <li>"
    ++ units "      <div class=\"reply-div\" id=\"rd<%id%>\">"
    ++ units "        <form id=\"rf<%id%>\">"
    ++ units "          <textarea name=\"comment\" cols=\"80\"></textarea>"
    ++ units "          <input type=\"submit\" value=\"Add reply\" />"
    ++ units "          <input type=\"button\" value=\"Cancel\" />"
    ++ units "          <input type=\"hidden\" name=\"parent\" value=\"<%id%>\" />"
    ++ units "          <input type=\"hidden\" name=\"node\" value=\"\" />"
    ++ units "        </form>"
    ++ units "      </div>"
    ++ units "    </li>"
